-- ===== src/Inputs/ActiveCaptain/RatingFilter.antt =====
-- src/inputs/active-captain/rating-filter.ts and src/shared/rating.ts.
use signalk_activecaptain_re.Base.{
  Bool, true, false, ◌||◌, not, Option, none, some, List, filter, if◌then◌else◌,
}
use signalk_activecaptain_re.Base.Float.{Floats, lit}
use signalk_activecaptain_re.Types.{PoiSummary, PoiType, poi_type_beq, Value}
use signalk_activecaptain_re.Shared.Numbers.{clamp_number}

-- The types in `RATABLE_POI_TYPES`.
abbrev pub is_ratable : PoiType → Bool
is_ratable type =
    poi_type_beq type PoiType.marina
    || (poi_type_beq type PoiType.anchorage || poi_type_beq type PoiType.business)

module _ {N : Type 0} ⦃F : Floats N⦄ where
  abbrev pub clamp_minimum_rating : Value N → N
  clamp_minimum_rating raw = clamp_number raw (lit 0) (lit 5) (lit 0) false

  abbrev meets : N → Option N → Bool
  meets minimum_rating none = false
  meets minimum_rating (some rating) = F.le minimum_rating rating

  abbrev pub passes_rating : N → PoiSummary N → Bool
  passes_rating minimum_rating poi =
      if not (is_ratable poi.type) then true else meets minimum_rating poi.rating

  unfoldable pub filter_by_rating : List (PoiSummary N) → N → List (PoiSummary N)
  filter_by_rating pois minimum_rating =
      if not (F.lt (lit 0) minimum_rating)
      then pois
      else filter (λ poi. passes_rating minimum_rating poi) pois

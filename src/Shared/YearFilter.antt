-- ===== src/Shared/YearFilter.antt =====
-- src/shared/year-filter.ts. `parse_int` is the language's `parseInt` to base 10, `parse_date` its
-- `Date.parse`, and `utc_year` the year of such a time.
use signalk_activecaptain_re.Base.{
  ℕ, ◌≡◌, refl, inl, inr, Bool, true, false, ◌&&◌, ◌||◌, not, Option, none, some, List, filter,
  get_elem?, take, length, ltb, nat_beq, if◌then◌else◌, Bool-cases, get-filter,
}
use signalk_activecaptain_re.Base.Text.{Text, txt}
use signalk_activecaptain_re.Base.Float.{Floats, lit}
use signalk_activecaptain_re.Types.{PoiSummary, Value, num, str, Fields, field, end}
use signalk_activecaptain_re.Shared.Numbers.{clamp_number}

module _ {N : Type 0} ⦃F : Floats N⦄ where
  abbrev pub clamp_minimum_year : Value N → N
  clamp_minimum_year raw = clamp_number raw (lit 0) (lit 9999) (lit 0) true

  abbrev pub minimum_year_schema : Text → Fields N
  minimum_year_schema title = field (txt "type") (str (txt "number")) (
      field (txt "title") (str title) (
        field (txt "default") (num (lit 0))
          (field (txt "minimum") (num (lit 0)) (field (txt "maximum") (num (lit 9999)) end))))

  module _ (parse_int parse_date : Text → N) (utc_year : N → N) where
    -- `charCodeAt(4) === HYPHEN_CODE`
    abbrev has_hyphen : Text → Bool
    has_hyphen s = elim (get_elem? s 4) [ none ↦ false | some c ↦ nat_beq c b'-' ]

    abbrev slow_year_ok : N → N → Bool
    slow_year_ok parsed_ms minimum_year =
        if F.is_finite parsed_ms then F.le minimum_year (utc_year parsed_ms) else true

    unfoldable pub is_on_or_after : Option Text → N → Bool
    is_on_or_after none minimum_year = true
    is_on_or_after (some timestamp) minimum_year =
        if ltb (length timestamp) 4
        then true
        else if F.is_finite (parse_int (take 4 timestamp)) && has_hyphen timestamp
        then F.le minimum_year (parse_int (take 4 timestamp))
        else slow_year_ok (parse_date timestamp) minimum_year

    unfoldable pub filter_by_minimum_year : List (PoiSummary N) → N → List (PoiSummary N)
    unfolding is_on_or_after
    filter_by_minimum_year pois minimum_year =
        if not (F.is_finite minimum_year) || F.le minimum_year (lit 0)
        then pois
        else filter (λ poi. is_on_or_after poi.timestamp minimum_year) pois

    -- A point without a date is never dropped.
    pub get-filter_by_minimum_year :
        (pois : List (PoiSummary N)) (minimum_year : N) (i : ℕ) (poi : PoiSummary N)
        → get_elem? pois i ≡ some poi
        → poi.timestamp ≡ none
        → (j : ℕ) × (get_elem? (filter_by_minimum_year pois minimum_year) j ≡ some poi)
    unfolding filter_by_minimum_year is_on_or_after
    get-filter_by_minimum_year pois minimum_year i poi h t =
        elim (Bool-cases (not (F.is_finite minimum_year) || F.le minimum_year (lit 0))) [
          | inl e ↦ rw e (i, h)
          | inr e ↦ rw e (
              get-filter (λ poi. is_on_or_after poi.timestamp minimum_year) pois i poi h
                (rw t refl))
        ]

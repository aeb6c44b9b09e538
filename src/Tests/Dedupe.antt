-- ===== src/Tests/Dedupe.antt =====
-- A run of the dedupe pass.
use signalk_activecaptain_re.Base.{
  ℕ, ◌≡◌, refl, true, false, Option, none, some, List, [], ◌∷◌, any,
}
use signalk_activecaptain_re.Base.Text.{Text, txt, text_eq}
use signalk_activecaptain_re.Base.Equality.{nat_eq}
use signalk_activecaptain_re.Types.{PoiType, Position, PoiSummary}
use signalk_activecaptain_re.Status.{PluginStatus}
use signalk_activecaptain_re.Inputs.Registry.{Outcome, value, namespaced}
use signalk_activecaptain_re.Inputs.Registry.Laws.{union_of}
use signalk_activecaptain_re.Inputs.Aggregate.{DedupeOptions, spec_of, wire_dedupe, list_deduped}
use signalk_activecaptain_re.Inputs.Aggregate.Laws.{lists_standin, list_deduped_covers}
use signalk_activecaptain_re.Inputs.Dedupe.{DedupeRadiusSpec, dedupe_against_base, per_source}
use signalk_activecaptain_re.Inputs.Dedupe.Standin.{finite_clearance, stands_for, AllFinite}
use signalk_activecaptain_re.Inputs.Dedupe.AgainstBase.{dedupe_against_base_covers}
use signalk_activecaptain_re.Tests.Sample.{whole_numbers, at, sample_poi}

abbrev osm_bridge : Text → Option ℕ → Position ℕ → PoiSummary ℕ
osm_bridge id clearance position = record (sample_poi id PoiType.bridge clearance position) {
  source = txt "openseamap";
}

-- A base bridge, and a bridge of another source at the same place with a lower clearance.
abbrev two_bridges : List (PoiSummary ℕ)
two_bridges =
    sample_poi (txt "1") PoiType.bridge (some 20) (at 1 1)
    ∷ osm_bridge (txt "2") (some 15) (at 1 1)
    ∷ []

abbrev radii : DedupeRadiusSpec ℕ
radii = per_source ((txt "openseamap", 200) ∷ [])

whole_finite : (o : Option ℕ) → finite_clearance o ≡ true
whole_finite none = refl
whole_finite (some a) = refl

two_bridges-AllFinite : AllFinite two_bridges
two_bridges-AllFinite i poi h = whole_finite poi.vertical_clearance_meters

dedupe_against_base_covers_example :
    any
      (stands_for radii (osm_bridge (txt "2") (some 15) (at 1 1)))
      (dedupe_against_base two_bridges (txt "openseamap" ∷ []) radii)
    ≡ true
dedupe_against_base_covers_example =
    dedupe_against_base_covers radii two_bridges (txt "openseamap" ∷ []) 1
      (osm_bridge (txt "2") (some 15) (at 1 1)) two_bridges-AllFinite refl

abbrev two_options : List (DedupeOptions ℕ)
two_options =
    record { id = txt "activecaptain"; dedupe_enabled = false; dedupe_radius_meters = none }
    ∷ record { id = txt "openseamap"; dedupe_enabled = true; dedupe_radius_meters = some 200 }
    ∷ []

abbrev two_answers : List (Text × Outcome ℕ)
two_answers =
    (txt "activecaptain", value (sample_poi (txt "1") PoiType.bridge (some 20) (at 1 1) ∷ []))
    ∷ (txt "openseamap", value (osm_bridge (txt "2") (some 15) (at 1 1) ∷ []))
    ∷ []

abbrev idle_status : PluginStatus
idle_status = record { started_at = []; recent_errors = []; states = [] }

two_answers-AllFinite : AllFinite (union_of two_answers)
two_answers-AllFinite i poi h = whole_finite poi.vertical_clearance_meters

list_deduped_covers_example :
    lists_standin
      (spec_of (wire_dedupe two_options))
      (namespaced (txt "openseamap") (osm_bridge (txt "2") (some 15) (at 1 1)))
      (list_deduped two_options [] two_answers idle_status).0
    ≡ true
list_deduped_covers_example =
    list_deduped_covers two_options [] two_answers idle_status 1 (txt "openseamap")
      (osm_bridge (txt "2") (some 15) (at 1 1) ∷ []) 0 (osm_bridge (txt "2") (some 15) (at 1 1))
      two_answers-AllFinite refl refl

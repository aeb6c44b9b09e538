-- ===== src/Shared/PoiTypeSelection.antt =====
-- src/shared/poi-type-selection.ts: from the POI-type toggles to the `poiTypes` string.
pub mod Laws
use signalk_activecaptain_re.Base.{
  ℕ, Bool, true, false, ◌&&◌, ◌||◌, not, Option, none, some, List, [], ◌∷◌, ◌++◌, map, any,
  if◌then◌else◌,
}
use signalk_activecaptain_re.Base.Text.{Text, txt, split_on, join_with, text_eq}
use signalk_activecaptain_re.Base.Equality.{◌==◌}
use signalk_activecaptain_re.Types.{
  Value, undefined, null, bool, num, str, arr, obj, Fields, end, field, property_of,
}

-- The config flag and the name of each selectable type.
unfoldable pub poi_type_flags : List (Text × Text)
poi_type_flags =
    (txt "includeMarinas", txt "Marina")
    ∷ (txt "includeAnchorages", txt "Anchorage")
    ∷ (txt "includeHazards", txt "Hazard")
    ∷ (txt "includeBusinesses", txt "Business")
    ∷ (txt "includeBoatRamps", txt "BoatRamp")
    ∷ (txt "includeBridges", txt "Bridge")
    ∷ (txt "includeDams", txt "Dam")
    ∷ (txt "includeFerries", txt "Ferry")
    ∷ (txt "includeInlets", txt "Inlet")
    ∷ (txt "includeLocks", txt "Lock")
    ∷ (txt "includeLocalKnowledge", txt "LocalKnowledge")
    ∷ (txt "includeNavigational", txt "Navigational")
    ∷ (txt "includeAirports", txt "Airport")
    ∷ []

-- `flag in config`
abbrev pub has_key : {N : Type 0} → Text → Fields N → Bool
has_key k end = false
has_key k (field j v fs) = j == k || has_key k fs

-- `value === true`
abbrev pub is_true : {N : Type 0} → Value N → Bool
is_true (bool b) = b
is_true _ = false

-- The types whose flag is `true`, and whether any flag is there: the loop over the flag table.
unfoldable pub selected_types : {N : Type 0} → Fields N → List (Text × Text) → List Text
selected_types config [] = []
selected_types config ((flag, type) ∷ flags) =
    let rest = selected_types config flags in
    if is_true (property_of flag (obj config)) then type ∷ rest else rest

unfoldable pub any_flag_present : {N : Type 0} → Fields N → List (Text × Text) → Bool
any_flag_present config flags = any (λ f. has_key f.0 config) flags

abbrev comma : Text
comma = b',' ∷ []

abbrev pub join_selected : Bool → List Text → Option Text
join_selected present (t ∷ ts) = some (join_with comma (t ∷ ts))
join_selected true [] = none
join_selected false [] = some (join_with comma (map (λ f. f.1) poi_type_flags))

-- `null` is a deliberate choice of no type.
unfoldable pub build_poi_types_string : {N : Type 0} → Fields N → Option Text
build_poi_types_string config =
    join_selected (any_flag_present config poi_type_flags) (selected_types config poi_type_flags)

abbrev present_types : Option Text → List Text
present_types none = []
present_types (some []) = []
present_types (some (c ∷ s)) = split_on b',' (c ∷ s)

abbrev pub contains : Text → List Text → Bool
contains t ts = any (λ s. s == t) ts

-- The loop over the required types: `merged` holds what `seen` holds.
unfoldable pub add_required : List Text → List Text → List Text
add_required merged [] = merged
add_required merged (t ∷ ts) =
    add_required (if contains t merged then merged else merged ++ (t ∷ [])) ts

unfoldable pub ensure_poi_types : Option Text → List Text → Text
unfolding add_required
ensure_poi_types poi_types required =
    join_with comma (add_required (present_types poi_types) required)

-- ===== src/Panel/NormalizeConfig/Laws.antt =====
-- The types that a normalized configuration selects.
use signalk_activecaptain_re.Base.{
  ◌≡◌, refl, true, Option, none, some, List, [], ◌∷◌, if◌then◌else◌,
}
use signalk_activecaptain_re.Base.Text.{Text, txt, join_with, text_beq, text_eq}
use signalk_activecaptain_re.Base.Float.{Floats}
use signalk_activecaptain_re.Types.{Value, property_of}
use signalk_activecaptain_re.Shared.PoiTypeSelection.{
  poi_type_flags, selected_types, any_flag_present, join_selected, build_poi_types_string,
}
use signalk_activecaptain_re.Panel.NormalizeConfig.{is_not_false, normalize_config}

-- The types whose flag the stored configuration does not turn off.
abbrev pub types_left_on : {N : Type 0} → Value N → List (Text × Text) → List Text
types_left_on raw [] = []
types_left_on raw ((flag, type) ∷ flags) =
    let rest = types_left_on raw flags in
    if is_not_false (property_of flag raw) then type ∷ rest else rest

abbrev pub joined : List Text → Option Text
joined [] = none
joined (t ∷ ts) = some (join_with (txt ",") (t ∷ ts))

join_selected-joined : (ts : List Text) → join_selected true ts ≡ joined ts
join_selected-joined [] = refl
join_selected-joined (t ∷ ts) = refl

module _ {N : Type 0} ⦃F : Floats N⦄ where
  selected-normalize_config :
      (raw : Value N)
      → selected_types (normalize_config raw) poi_type_flags ≡ types_left_on raw poi_type_flags
  unfolding selected_types normalize_config poi_type_flags text_beq
  selected-normalize_config raw = refl

  -- The plugin selects, of a normalized configuration, the types whose flag the stored configuration
  -- does not turn off, in the order of the flag table, and no type only where all are turned off.
  pub build_poi_types_string-normalize_config :
      (raw : Value N)
      → build_poi_types_string (normalize_config raw) ≡ joined (types_left_on raw poi_type_flags)
  unfolding build_poi_types_string any_flag_present selected_types normalize_config poi_type_flags
      text_beq
  build_poi_types_string-normalize_config raw =
      join_selected-joined (types_left_on raw poi_type_flags)

-- ===== src/Inputs/ActiveCaptain/BridgeClearance.antt =====
-- src/inputs/active-captain/bridge-clearance.ts and src/shared/length.ts. `lower` is the language's
-- `toLowerCase`.
use signalk_activecaptain_re.Base.{
  Bool, Option, none, some, List, [], ◌∷◌, any, reverse, if◌then◌else◌,
}
use signalk_activecaptain_re.Base.Text.{Text, txt, text_beq}
use signalk_activecaptain_re.Base.Float.{Floats}
use signalk_activecaptain_re.Types.{Value}
use signalk_activecaptain_re.Shared.Numbers.{positive_finite_number}
use signalk_activecaptain_re.Outputs.NotesResource.ResourceQuery.{is_space}

abbrev skip_spaces : Text → Text
skip_spaces [] = []
skip_spaces (c ∷ s) = let rest = skip_spaces s in if is_space c then rest else c ∷ s

-- `String.prototype.trim`
abbrev pub trim : Text → Text
trim s = reverse (skip_spaces (reverse (skip_spaces s)))

abbrev is_in : List Text → Text → Bool
is_in ts t = any (λ s. text_beq s t) ts

abbrev feet_units : List Text
feet_units = txt "feet" ∷ txt "ft" ∷ txt "foot" ∷ []

abbrev meter_units : List Text
meter_units = txt "meters" ∷ txt "metres" ∷ txt "meter" ∷ txt "m" ∷ []

module _ {N : Type 0} ⦃F : Floats N⦄ (lower : Text → Text) where
  -- 0.3048 meters
  abbrev meters_per_foot : N
  meters_per_foot = F.ratio 3048 10000

  unfoldable pub meters_from_feet : N → N
  meters_from_feet feet = F.mul feet meters_per_foot

  abbrev height_in : Text → N → Option N
  height_in unit height =
      if is_in feet_units unit
      then some (meters_from_feet height)
      else if is_in meter_units unit
      then some height
      else none

  abbrev height_with : Option N → Value N → Option N
  height_with (some height) (Value.str unit) = height_in (lower (trim unit)) height
  height_with _ unit = none

  unfoldable pub bridge_height_to_meters : Value N → Value N → Option N
  unfolding meters_from_feet
  bridge_height_to_meters bridge_height distance_unit =
      height_with (positive_finite_number bridge_height) distance_unit

-- ===== src/Shared/BridgeClearance.antt =====
-- src/shared/bridge-clearance.ts: the comparison of a bridge's clearance with the vessel's air draft.
pub mod Laws
use signalk_activecaptain_re.Base.{ℕ, Bool, true, false, Option, none, some, if◌then◌else◌}
use signalk_activecaptain_re.Base.Text.{Text, txt}
use signalk_activecaptain_re.Base.Float.{Floats, lit}
use signalk_activecaptain_re.Types.{Value, undefined, property_of}
use signalk_activecaptain_re.Shared.Numbers.{positive_finite_number, clamp_number, clamp_between}

module _ {N : Type 0} ⦃F : Floats N⦄ where
  abbrev pub min_clearance_margin_meters : N
  min_clearance_margin_meters = lit 0

  abbrev pub max_clearance_margin_meters : N
  max_clearance_margin_meters = lit 30

  abbrev pub default_clearance_margin_meters : N
  default_clearance_margin_meters = lit 1

  unfoldable pub clamp_clearance_margin : Value N → N
  clamp_clearance_margin raw =
      clamp_number raw min_clearance_margin_meters max_clearance_margin_meters
        default_clearance_margin_meters false

  abbrev pub or_else : Option N → Option N → Option N
  or_else none b = b
  or_else (some x) b = some x

  -- `none` for the reading of the data model is a read that throws.
  abbrev pub read_or_undefined : Option (Value N) → Value N
  read_or_undefined none = undefined
  read_or_undefined (some v) = v

  unfoldable pub read_vessel_air_draft : Option (Value N) → Value N → Option N
  read_vessel_air_draft reading fallback =
      let raw = read_or_undefined reading in
      or_else (positive_finite_number raw) (
        or_else (positive_finite_number (property_of (txt "value") raw))
          (positive_finite_number fallback))

  -- `toFiniteNumber` of an optional number.
  unfoldable pub finite_option : Option N → Option N
  finite_option none = none
  finite_option (some x) = if F.is_finite x then some x else none

  abbrev pub finite_margin : N → N
  finite_margin margin = if F.is_finite margin then margin else default_clearance_margin_meters

  abbrev pub blocks_with : Option N → Option N → N → Bool
  blocks_with none air_draft margin = false
  blocks_with (some clearance) none margin = false
  blocks_with (some clearance) (some air_draft) margin = F.le clearance (F.add air_draft margin)

  unfoldable pub bridge_blocks_vessel : Option N → Option N → N → Bool
  unfolding finite_option
  bridge_blocks_vessel clearance air_draft margin =
      blocks_with (finite_option clearance) (finite_option air_draft) (finite_margin margin)

  unfoldable pub format_meters : N → Text
  format_meters meters = F.to_text (F.div (F.round (F.mul meters (lit 10))) (lit 10))

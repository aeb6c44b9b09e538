-- ===== src/Shared/BridgeClearance/Laws.antt =====
-- What the comparison and the air draft guarantee.
use signalk_activecaptain_re.Base.{◌≡◌, refl, ◌↔◌, true, Option, none, some, arith}
use signalk_activecaptain_re.Base.Text.{txt}
use signalk_activecaptain_re.Base.Float.{Floats, lit}
use signalk_activecaptain_re.Types.{Value, num, property_of}
use signalk_activecaptain_re.Shared.Numbers.{positive_finite_number}
use signalk_activecaptain_re.Shared.BridgeClearance.{
  read_vessel_air_draft, bridge_blocks_vessel, finite_margin, or_else, read_or_undefined,
}

module _ {N : Type 0} ⦃F : Floats N⦄ where
  positive_finite_number_sound :
      (v : Value N) {x : N}
      → positive_finite_number v ≡ some x
      → (F.is_finite x ≡ true) × (F.lt (lit 0) x ≡ true)
  unfolding positive_finite_number
  positive_finite_number_sound (num y) h = ground arith
  positive_finite_number_sound _ h = ground arith

  abbrev Usable : Option N → Type 0
  Usable o = (x : N) → o ≡ some x → (F.is_finite x ≡ true) × (F.lt (lit 0) x ≡ true)

  or_else-Usable : (a b : Option N) → Usable a → Usable b → Usable (or_else a b)
  or_else-Usable none b p q = q
  or_else-Usable (some y) b p q = p

  usable : (v : Value N) → Usable (positive_finite_number v)
  usable v x e = positive_finite_number_sound v e

  -- The air draft that the checks work with, from whatever source, is a positive finite number.
  pub read_vessel_air_draft-positive :
      (reading : Option (Value N)) (fallback : Value N) {x : N}
      → read_vessel_air_draft reading fallback ≡ some x
      → (F.is_finite x ≡ true) × (F.lt (lit 0) x ≡ true)
  unfolding read_vessel_air_draft
  read_vessel_air_draft-positive reading fallback {x} h =
      let raw = read_or_undefined reading in
      let model = positive_finite_number (property_of (txt "value") raw) in
      or_else-Usable (positive_finite_number raw) (or_else model (positive_finite_number fallback))
        (usable raw)
        (or_else-Usable model (positive_finite_number fallback)
          (usable (property_of (txt "value") raw)) (usable fallback))
        x h

  -- A bridge blocks the vessel exactly when both figures are known and finite and the clearance is
  -- at most the air draft and the margin, the default margin where it is no finite number.
  pub bridge_blocks_vessel_iff :
      (clearance air_draft : Option N) (margin : N)
      → (bridge_blocks_vessel clearance air_draft margin ≡ true) ↔ (
          (c : N) × (a : N) × (clearance ≡ some c)
          × (air_draft ≡ some a)
          × (F.is_finite c ≡ true)
          × (F.is_finite a ≡ true)
          × (F.le c (F.add a (finite_margin margin)) ≡ true))
  unfolding bridge_blocks_vessel
  bridge_blocks_vessel_iff none a m = (λ h. ground arith, λ h. ground arith)
  bridge_blocks_vessel_iff (some c) none m = (λ h. ground arith, λ h. ground arith)
  bridge_blocks_vessel_iff (some c) (some a) m =
      (λ h. (c, a, refl, refl, ground arith, ground arith, ground arith), λ h. ground arith)

-- ===== src/Shared/Numbers/Laws.antt =====
-- The bounds that the clamp guarantees whatever the configuration holds.
use signalk_activecaptain_re.Base.{◌≡◌, true, false, arith}
use signalk_activecaptain_re.Base.Float.{Floats}
use signalk_activecaptain_re.Types.{Value, num}
use signalk_activecaptain_re.Shared.Numbers.{clamp_between, clamp_number}

module _ {N : Type 0} ⦃F : Floats N⦄ (lo hi fallback : N) where
  abbrev pub InRange : N → Type 0
  InRange x = (F.le lo x ≡ true) × (F.le x hi ≡ true)

  module _ (lo_finite : F.is_finite lo ≡ true) (hi_finite : F.is_finite hi ≡ true)
      (ordered : F.le lo hi ≡ true) where
    clamp_between-InRange : (x : N) → F.is_finite x ≡ true → InRange (clamp_between lo hi x)
    unfolding clamp_between
    clamp_between-InRange x f = ground (
      arith,
      F.lt→le hi x,
      F.not_lt→le x lo f lo_finite,
      F.not_lt→le hi x hi_finite f,
      F.le_refl lo lo_finite,
      F.le_refl hi hi_finite,
    )

    -- Without truncation, whatever value the configuration holds, the clamped number lies between
    -- the bounds, provided that the bounds are finite and ordered and the fallback lies between them.
    pub clamp_number-InRange :
        InRange fallback → (raw : Value N) → InRange (clamp_number raw lo hi fallback false)
    unfolding clamp_number
    clamp_number-InRange h (num x) = ground (arith, clamp_between-InRange x)
    clamp_number-InRange h _ = h

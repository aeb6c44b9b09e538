-- ===== src/Base/Equality.antt =====
-- Boolean equality as an instance argument: `===` on the types that serve as keys.
use Prim.Native.Nat.{ℕ}
use mathlib.Core.Path.{◌≡◌}
use mathlib.Core.Logic.{◌↔◌}
use mathlib.Core.Bool.{Bool, true}
use signalk_activecaptain_re.Base.Tests.{nat_beq, nat_beq_iff}

pub record Eq {ℓ} (K : Type ℓ) : Type ℓ where
  pub strict_equals : K → K → Bool
  pub strict_equals_iff : (j k : K) → (strict_equals j k ≡ true) ↔ (j ≡ k)

infix 50 ◌==◌
abbrev pub ◌==◌ {ℓ} : {K : Type ℓ} ⦃key : Eq K⦄ → K → K → Bool
◌==◌ ⦃key⦄ j k = key.strict_equals j k

instance abbrev pub nat_eq : Eq ℕ
nat_eq = record { strict_equals = nat_beq; strict_equals_iff = nat_beq_iff }

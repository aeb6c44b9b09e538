-- ===== src/Base/Float.antt =====
-- JavaScript's `number`: a carrier with the operations that the program uses.
use Prim.Native.Nat.{ℕ, ◌^◌, ◌≤◌, ◌<◌}
use mathlib.Core.Path.{◌≡◌}
use mathlib.Core.Bool.{Bool, true, false}
use signalk_activecaptain_re.Base.Text.{Text}

-- IEEE 754 doubles with the standard library's functions on them. The laws are the documented
-- behaviour of the comparisons; nothing is assumed of how the operations round.
pub record Floats (N : Type 0) : Type 0 where
  pub is_finite : N → Bool
  pub le : N → N → Bool
  pub lt : N → N → Bool
  pub same : N → N → Bool
  pub ratio : ℕ → ℕ → N
  pub add : N → N → N
  pub sub : N → N → N
  pub mul : N → N → N
  pub div : N → N → N
  pub remainder : N → N → N
  pub pow : N → N → N
  pub neg : N → N
  pub min : N → N → N
  pub max : N → N → N
  pub abs : N → N
  pub sqrt : N → N
  pub sin : N → N
  pub cos : N → N
  pub asin : N → N
  pub acos : N → N
  pub atan2 : N → N → N
  pub pi : N
  pub sqrt2 : N
  pub floor : N → N
  pub round : N → N
  pub trunc : N → N
  pub to_text : N → Text
  pub to_fixed : ℕ → N → Text
  -- the natural number below a number that is not negative
  pub to_nat : N → ℕ
  pub le_trans : (a b c : N) → le a b ≡ true → le b c ≡ true → le a c ≡ true
  pub le_refl : (a : N) → is_finite a ≡ true → le a a ≡ true
  pub lt→le : (a b : N) → lt a b ≡ true → le a b ≡ true
  pub not_lt→le :
      (a b : N) → is_finite a ≡ true → is_finite b ≡ true → lt a b ≡ false → le b a ≡ true
  pub finite_literal : (n : ℕ) → n < 2 ^ 53 → is_finite (ratio n 1) ≡ true
  pub to_nat-le : (x : N) (n : ℕ) → le x (ratio n 1) ≡ true → to_nat x ≤ n
  pub lt→not_le : (a b : N) → lt a b ≡ true → le b a ≡ false
  pub same→le : (a b : N) → same a b ≡ true → le a b ≡ true
  pub same_refl : (a : N) → is_finite a ≡ true → same a a ≡ true
  pub finite_abs : (a : N) → is_finite a ≡ true → is_finite (abs a) ≡ true

-- A numeral of the source.
abbrev pub lit : {N : Type 0} ⦃F : Floats N⦄ → ℕ → N
lit ⦃F⦄ n = F.ratio n 1

-- ===== src/Shared/Numbers.antt =====
-- src/shared/numbers.ts: the narrowing of untyped values to usable numbers, and the clamp.
pub mod Laws
use signalk_activecaptain_re.Base.{
  ℕ, ◌≡◌, refl, Bool, true, false, ◌&&◌, Option, none, some, ◌⊎◌, inl, inr, arith, if◌then◌else◌,
  Bool-cases,
}
use signalk_activecaptain_re.Base.Float.{Floats}
use signalk_activecaptain_re.Types.{Value, num}

module _ {N : Type 0} ⦃F : Floats N⦄ where
  unfoldable pub to_finite_number : Value N → Option N
  to_finite_number (num x) = if F.is_finite x then some x else none
  to_finite_number _ = none

  unfoldable pub positive_finite_number : Value N → Option N
  positive_finite_number (num x) = if F.is_finite x && F.lt (F.ratio 0 1) x then some x else none
  positive_finite_number _ = none

  -- The number that the `if`/`else if` of `clampNumber` leaves.
  unfoldable pub clamp_between : N → N → N → N
  clamp_between min max x = if F.lt x min then min else if F.lt max x then max else x

  unfoldable pub clamp_number : Value N → N → N → N → Bool → N
  unfolding clamp_between
  clamp_number (num x) min max fallback truncate =
      if F.is_finite x
      then if truncate then F.trunc (clamp_between min max x) else clamp_between min max x
      else fallback
  clamp_number _ min max fallback truncate = fallback

  -- The number of a value that passes `isValidLatitude`.
  unfoldable pub is_valid_latitude : Value N → Option N
  is_valid_latitude (num x) =
      if F.is_finite x && (F.le (F.neg (F.ratio 90 1)) x && F.le x (F.ratio 90 1))
      then some x
      else none
  is_valid_latitude _ = none

  unfoldable pub is_valid_longitude : Value N → Option N
  is_valid_longitude (num x) =
      if F.is_finite x && (F.le (F.neg (F.ratio 180 1)) x && F.le x (F.ratio 180 1))
      then some x
      else none
  is_valid_longitude _ = none

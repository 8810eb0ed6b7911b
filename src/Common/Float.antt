-- ===== src/Common/Float.antt =====
-- `float64`, as far as the program uses it: a parameter, since the checker has no floats.
-- The operations are Go's; the laws are those of IEEE 754 with rounding to nearest.
use Prim.Native.Nat.{ℕ, ◌≤◌}
use mathlib.Core.Bool.{Bool, true}
use mathlib.Core.Path.{◌≡◌}
use recourse.Common.Int.{ℤ, pos}
use recourse.Common.Tests.{ltb, ◌==◌}

pub record Float (F : Type 0) : Type 0 where
  -- `float64(n)`
  pub of_ℤ : ℤ → F
  -- `time.Duration(x)` and `int(x)`
  pub to_ℤ : F → ℤ
  pub add : F → F → F
  pub sub : F → F → F
  pub mul : F → F → F
  pub div : F → F → F
  -- `x < y` and `x == y`, both false at NaN
  pub lt : F → F → Bool
  pub eq : F → F → Bool
  pub is_nan : F → Bool
  pub is_inf : F → Bool

-- The integers up to 2^53 are converted exactly, so they compare as integers.
pub record IsExact (F : Type 0) ⦃fl : Float F⦄ : Type 0 where
  pub lt-of_ℤ :
      (a b : ℕ)
      → a ≤ 9_007_199_254_740_992
      → b ≤ 9_007_199_254_740_992
      → fl.lt (fl.of_ℤ (pos a)) (fl.of_ℤ (pos b)) ≡ ltb a b
  pub eq-of_ℤ :
      (a b : ℕ)
      → a ≤ 9_007_199_254_740_992
      → b ≤ 9_007_199_254_740_992
      → fl.eq (fl.of_ℤ (pos a)) (fl.of_ℤ (pos b)) ≡ (a == b)
  -- Equal values compare alike.
  pub lt-eq_left : (x y z : F) → fl.eq x y ≡ true → fl.lt x z ≡ fl.lt y z

-- ===== src/Examples.antt =====
-- Concrete values for the tests and examples: numbers with three decimals in the place of floats.
pub mod Policies
pub mod Circuits
pub mod Classifiers
pub mod Hedges
pub mod Budgets
pub mod Providers
pub mod Calls
pub mod Groups
pub mod Requests
pub mod Interceptors
pub mod Full
pub mod Setup
pub mod Agreement
use recourse.Common.{ℕ, ◌+◌, ◌-◌, ◌*◌, ◌/◌, ◌≤◌, Bool, true, false, ◌≡◌, refl, arith, ltb, ◌==◌}
use recourse.Common.Int.{ℤ, pos, pos_part, ◌≤ℤ◌}
use recourse.Common.Float.{Float, IsExact}
use recourse.Budget.Bucket.{IsOrdered}
use recourse.Policy.{PolicyKey}

instance abbrev pub thousandths : Float ℕ
thousandths = record {
  of_ℤ = λ n. pos_part n * 1_000;
  to_ℤ = λ x. pos (x / 1_000);
  add = λ x y. x + y;
  sub = λ x y. x - y;
  mul = λ x y. x * y / 1_000;
  div = λ x y. x * 1_000 / y;
  lt = ltb;
  eq = λ x y. x == y;
  is_nan = λ x. false;
  is_inf = λ x. false;
}

exact_lt : (a b : ℕ) → ltb (a * 1_000) (b * 1_000) ≡ ltb a b
exact_lt a b = ground arith

exact_eq : (a b : ℕ) → ((a * 1_000) == (b * 1_000)) ≡ (a == b)
exact_eq a b = ground arith

alike : (x y z : ℕ) → (x == y) ≡ true → ltb x z ≡ ltb y z
alike x y z h = ground arith

pub exact : IsExact ℕ
exact = record {
  lt-of_ℤ = λ a b _ _. exact_lt a b;
  eq-of_ℤ = λ a b _ _. exact_eq a b;
  lt-eq_left = alike;
}

self_low : (x : ℕ) → ltb x x ≡ false
self_low x = ground arith

take_low : (bound x y : ℕ) → ltb bound x ≡ false → ltb y 0 ≡ false → ltb bound (x - y) ≡ false
take_low bound x y h k = ground arith

whole_low : (n : ℤ) → pos 1 ≤ℤ n → ltb (pos_part n * 1_000) 0 ≡ false
whole_low n h = ground arith

pub ordered : IsOrdered ℕ
ordered = record { lt_self = self_low; sub_low = take_low; of_pos = whole_low }

abbrev pub user_key : PolicyKey
user_key = record { namespace = "users"; name = "get" }

abbrev pub order_key : PolicyKey
order_key = record { namespace = "orders"; name = "list" }

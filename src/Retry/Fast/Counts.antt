-- ===== src/Retry/Fast/Counts.antt =====
-- How many of each kind of event a log holds, and what the callees of a round add to it.
use recourse.Common.{
  ℕ, suc, ◌+◌, Bool, ◌≡◌, List, [], ◌∷◌, Option, none, some, if◌then◌else◌, arith,
}
use recourse.Common.Int.{ℤ}
use recourse.Common.Float.{Float}
use recourse.Policy.{PolicyKey, BudgetRef, RetryPolicy}
use recourse.Errors.{Err}
use recourse.Classify.{Outcome}
use recourse.Budget.{AttemptKind, Decision}
use recourse.Retry.{
  Event, op_called, slept, granted, released, Exit, returned, panicked, St, Env, Config,
}
use recourse.Retry.Allow.{allow_attempt}
use recourse.Retry.Backoff.{compute_sleep}
use recourse.Retry.Verdict.{classify_with_recovery, terminal_error}

abbrev pub ops : List Event → ℕ
ops [] = 0
ops (op_called n ∷ l) = suc (ops l)
ops (_ ∷ l) = ops l

abbrev pub sleeps : List Event → ℕ
sleeps [] = 0
sleeps (slept d ∷ l) = suc (sleeps l)
sleeps (_ ∷ l) = sleeps l

-- What the release functions that a budget has granted weigh, and those that were called. Two logs in
-- which these agree for every weight name the same functions, each as often.
abbrev pub grants : (ℕ → ℕ) → List Event → ℕ
grants weight [] = 0
grants weight (granted r ∷ l) = weight r + grants weight l
grants weight (_ ∷ l) = grants weight l

abbrev pub releases : (ℕ → ℕ) → List Event → ℕ
releases weight [] = 0
releases weight (released r ∷ l) = weight r + releases weight l
releases weight (_ ∷ l) = releases weight l

abbrev pub weight_of : (ℕ → ℕ) → Option ℕ → ℕ
weight_of weight none = 0
weight_of weight (some r) = weight r

-- A step that calls no operation, sleeps, grants and releases nothing.
pub record IsQuiet {W : Type 0} (weight : ℕ → ℕ) (s s' : St W) : Type 0 where
  pub same_ops : ops s'.log ≡ ops s.log
  pub same_sleeps : sleeps s'.log ≡ sleeps s.log
  pub same_grants : grants weight s'.log ≡ grants weight s.log
  pub same_releases : releases weight s'.log ≡ releases weight s.log

abbrev pub owed : (ℕ → ℕ) → Decision → ℕ
owed weight d = if d.allowed then weight_of weight d.release else 0

-- What `allowAttempt` adds: a grant exactly where an allowed decision brings a release function.
abbrev pub Allows : {W : Type 0} → (ℕ → ℕ) → St W → Exit Decision × St W → Type 0
Allows weight s (panicked v, s') = IsQuiet weight s s'
Allows weight s (returned d, s') =
    (ops s'.log ≡ ops s.log)
    × (sleeps s'.log ≡ sleeps s.log)
    × (grants weight s'.log ≡ grants weight s.log + owed weight d)
    × (releases weight s'.log ≡ releases weight s.log)

module _ {F V W B C : Type 0} ⦃fl : Float F⦄ (env : Env F V W B C) (cfg : Config B C)
    (key : PolicyKey) (weight : ℕ → ℕ) where
  pub allow_attempt-Allows :
      (attempt : ℕ) (kind : AttemptKind) (ref : BudgetRef) (s : St W)
      → Allows weight s (allow_attempt env cfg key attempt kind ref s)
  unfolding allow_attempt
  allow_attempt-Allows attempt kind ref s = ground arith

  pub classify-IsQuiet :
      (recover : Bool) (c : C) (val : V) (err : Option Err) (s : St W)
      → IsQuiet weight s (classify_with_recovery env recover c val err key s).1
  unfolding classify_with_recovery
  classify-IsQuiet recover c val err s = ground arith

  pub terminal_error-IsQuiet :
      (err : Option Err) (out : Outcome) (s : St W)
      → IsQuiet weight s (terminal_error env err out s).1
  unfolding terminal_error
  terminal_error-IsQuiet err out s = ground arith

  pub compute_sleep-IsQuiet :
      (backoff : ℤ) (pol : RetryPolicy F) (out : Outcome) (s : St W)
      → IsQuiet weight s (compute_sleep env backoff pol out s).1
  unfolding compute_sleep
  compute_sleep-IsQuiet backoff pol out s = ground arith

-- ===== src/Policy.antt =====
-- policy/schema.go and policy/errors.go: the data of a policy. `F` is the type of `float64` values;
-- a `time.Duration` is an integer of nanoseconds, and a policy key is a pair of texts.
pub mod Key
pub mod Defaults
pub mod Normalize
pub mod Options
use recourse.Common.{String, Bool, List}
use recourse.Common.Int.{ℤ, pos}

abbrev pub Duration : Type 0
Duration = ℤ

-- `PolicyKey` of policy/key.go.
pub record PolicyKey : Type 0 where
  pub namespace : String
  pub name : String

pub record BudgetRef : Type 0 where
  pub name : String
  pub cost : ℤ

pub record RetryPolicy (F : Type 0) : Type 0 where
  pub max_attempts : ℤ
  pub initial_backoff : Duration
  pub max_backoff : Duration
  pub backoff_multiplier : F
  pub jitter : String
  pub timeout_per_attempt : Duration
  pub overall_timeout : Duration
  pub classifier_name : String
  pub budget : BudgetRef

pub record HedgePolicy : Type 0 where
  pub enabled : Bool
  pub max_hedges : ℤ
  pub hedge_delay : Duration
  pub trigger_name : String
  pub cancel_on_first_terminal : Bool
  pub budget : BudgetRef

pub record CircuitPolicy : Type 0 where
  pub enabled : Bool
  pub threshold : ℤ
  pub cooldown : Duration

pub record NormalizationInfo : Type 0 where
  pub changed : Bool
  pub changed_fields : List String

pub record Metadata : Type 0 where
  pub source : String
  pub normalization : NormalizationInfo

pub record EffectivePolicy (F : Type 0) : Type 0 where
  pub key : PolicyKey
  pub id : String
  pub retry : RetryPolicy F
  pub hedge : HedgePolicy
  pub circuit : CircuitPolicy
  pub meta : Metadata

-- `NormalizeError`: the field and its value.
pub record NormalizeError : Type 0 where
  pub field : String
  pub value : String

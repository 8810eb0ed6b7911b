-- ===== src/Observe.antt =====
-- observe/types.go, observe/attempt_info.go: the records that observers and callers of the library see.
-- Times are integers of nanoseconds.
pub mod Fanout
pub mod Capture
use recourse.Common.{ℕ, String, Bool, List, Option}
use recourse.Common.Int.{ℤ}
use recourse.Policy.{PolicyKey}
use recourse.Errors.{Err}
use recourse.Classify.{Outcome}
use recourse.Budget.{AttemptKind}

-- `BudgetDecisionEvent`.
pub record BudgetEvent : Type 0 where
  pub key : PolicyKey
  pub attempt : ℕ
  pub kind : AttemptKind
  pub budget_name : String
  pub cost : ℤ
  pub mode : String
  pub allowed : Bool
  pub reason : String

-- `AttemptInfo`.
pub record AttemptInfo : Type 0 where
  pub retry_index : ℕ
  pub attempt : ℕ
  pub is_hedge : Bool
  pub hedge_index : ℕ
  pub policy_id : String

pub record AttemptRecord : Type 0 where
  pub attempt : ℕ
  pub start_time : ℤ
  pub end_time : ℤ
  pub is_hedge : Bool
  pub hedge_index : ℕ
  pub outcome : Outcome
  pub err : Option Err
  pub backoff : ℤ
  pub budget_allowed : Bool
  pub budget_reason : String

pub record Timeline : Type 0 where
  pub key : PolicyKey
  pub policy_id : String
  pub start : ℤ
  pub end_time : ℤ
  pub attributes : List (String × String)
  pub attempts : List AttemptRecord
  pub final_err : Option Err

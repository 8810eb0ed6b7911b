-- ===== src/Budget.antt =====
-- budget/types.go, budget/reasons.go: what a budget answers.
pub mod Registry
pub mod Bucket
use recourse.Common.{ℕ, String, Bool, Option}

pub data AttemptKind : Type 0 where
  kind_retry kind_hedge : AttemptKind

-- `Decision`; `release` names the function to call after the attempt, `none` where it is nil.
pub record Decision : Type 0 where
  pub allowed : Bool
  pub reason : String
  pub release : Option ℕ

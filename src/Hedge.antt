-- ===== src/Hedge.antt =====
-- hedge/types.go: what a trigger is shown, and package hedge's parts below this module.
pub mod Tracker
pub mod Triggers
pub mod Registry
use recourse.Common.Int.{ℤ}

-- `LatencySnapshot`.
pub record LatencySnapshot : Type 0 where
  pub p50 : ℤ
  pub p90 : ℤ
  pub p95 : ℤ
  pub p99 : ℤ

-- `HedgeState`.
pub record HedgeState : Type 0 where
  pub call_start : ℤ
  pub attempt_start : ℤ
  pub attempts_launched : ℤ
  pub max_hedges : ℤ
  pub elapsed : ℤ
  pub snapshot : LatencySnapshot
  pub hedge_delay : ℤ

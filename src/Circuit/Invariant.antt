-- ===== src/Circuit/Invariant.antt =====
-- What holds of a breaker between two calls.
use recourse.Common.{◌≡◌, arith, List, [], ◌∷◌}
use recourse.Common.Int.{ℤ, pos, ◌≤ℤ◌, ◌+ℤ◌}
use recourse.Circuit.{Breaker, closed, open_state, Call, call, run, new_breaker}

pub record Inv (cb : Breaker) : Type 0 where
  pub threshold_pos : pos 1 ≤ℤ cb.threshold
  pub cooldown_pos : pos 1 ≤ℤ cb.cooldown
  pub one_probe : cb.max_probes ≡ pos 1
  pub one_success : cb.probes_required ≡ pos 1
  -- fewer failures in a row than the threshold, in every state
  pub failures_low : pos 0 ≤ℤ cb.consecutive_failures
  pub failures_high : cb.consecutive_failures +ℤ pos 1 ≤ℤ cb.threshold
  pub failures_closed : cb.state ≡ open_state → cb.consecutive_failures ≡ pos 0
  -- at most one probe is out, and none succeeded without closing the circuit
  pub probes_low : pos 0 ≤ℤ cb.probes_sent
  pub probes_high : cb.probes_sent ≤ℤ pos 1
  pub probes_closed : cb.state ≡ closed → cb.probes_sent ≡ pos 0
  pub no_success : cb.probes_successful ≡ pos 0

pub new_breaker-Inv : (threshold cooldown : ℤ) → Inv (new_breaker threshold cooldown)
unfolding new_breaker ◌+ℤ◌
new_breaker-Inv threshold cooldown = ground arith

pub call-Inv : (c : Call) (now : ℤ) (cb : Breaker) → Inv cb → Inv (call c now cb)
unfolding call
call-Inv Call.try_allow now cb h = ground arith
call-Inv Call.report_success now cb h = ground arith
call-Inv Call.report_failure now cb h = ground arith
call-Inv Call.ask_state now cb h = ground arith

pub run-Inv : (cs : List (Call × ℤ)) (cb : Breaker) → Inv cb → Inv (run cs cb)
unfolding run
run-Inv [] cb h = h
run-Inv ((c, now) ∷ cs) cb h = run-Inv cs (call c now cb) (call-Inv c now cb h)

-- A new breaker, whatever threshold and cooldown are asked for, is in a valid state after every run
-- of calls at any times.
pub runs-Inv :
    (cs : List (Call × ℤ)) (threshold cooldown : ℤ) → Inv (run cs (new_breaker threshold cooldown))
runs-Inv cs threshold cooldown =
    run-Inv cs (new_breaker threshold cooldown) (new_breaker-Inv threshold cooldown)

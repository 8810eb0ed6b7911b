-- ===== src/Circuit.antt =====
-- circuit/breaker.go, circuit/types.go: the consecutive-failure breaker. A method takes the time
-- that `time.Now` returns in it and gives back the new record, so a run is a list of calls; the mutex
-- makes each call one step.
pub mod Registry
pub mod Invariant
pub mod Behaviour
use recourse.Common.{String, Bool, true, false, if◌then◌else◌, List, [], ◌∷◌}
use recourse.Common.Int.{ℤ, pos, ◌+ℤ◌, ◌-ℤ◌, leb_ℤ}

pub data State : Type 0 where
  closed open_state half_open : State

-- `State.String`.
unfoldable pub state_string : State → String
state_string closed = "closed"
state_string open_state = "open"
state_string half_open = "half-open"

pub record Decision : Type 0 where
  pub allowed : Bool
  pub state : State
  pub reason : String

-- `ConsecutiveFailureBreaker`; times are nanoseconds.
pub record Breaker : Type 0 where
  pub state : State
  pub threshold : ℤ
  pub cooldown : ℤ
  pub max_probes : ℤ
  pub consecutive_failures : ℤ
  pub open_time : ℤ
  pub probes_sent : ℤ
  pub probes_successful : ℤ
  pub probes_required : ℤ

-- `NewConsecutiveFailureBreaker`; `open_time` starts at Go's zero time, which is never read while
-- the state is closed.
unfoldable pub new_breaker : ℤ → ℤ → Breaker
new_breaker threshold cooldown = record {
  state = closed;
  threshold = if leb_ℤ threshold (pos 0) then pos 5 else threshold;
  cooldown = if leb_ℤ cooldown (pos 0) then pos 10_000_000_000 else cooldown;
  max_probes = pos 1;
  consecutive_failures = pos 0;
  open_time = pos 0;
  probes_sent = pos 0;
  probes_successful = pos 0;
  probes_required = pos 1;
}

pub transition_to : State → ℤ → Breaker → Breaker
transition_to closed now cb = record cb {
  state = closed;
  consecutive_failures = pos 0;
  probes_sent = pos 0;
  probes_successful = pos 0;
}
transition_to open_state now cb = record cb {
  state = open_state;
  open_time = now;
  consecutive_failures = pos 0;
}
transition_to half_open now cb = record cb {
  state = half_open;
  probes_sent = pos 0;
  probes_successful = pos 0;
}

update_open : State → ℤ → Breaker → Breaker
unfolding transition_to ◌-ℤ◌
update_open open_state now cb =
    if leb_ℤ cb.cooldown (now -ℤ cb.open_time) then transition_to half_open now cb else cb
update_open _ now cb = cb

-- `updateStateLocked`.
pub update_state : ℤ → Breaker → Breaker
unfolding update_open
update_state now cb = update_open cb.state now cb

-- The branches of `Allow` after the state is updated.
allow_at : State → Breaker → Breaker × Decision
unfolding ◌+ℤ◌
allow_at open_state cb =
    (cb, record { allowed = false; state = open_state; reason = "circuit_open" })
allow_at half_open cb =
    if leb_ℤ cb.max_probes cb.probes_sent
    then (
      cb,
      record { allowed = false; state = half_open; reason = "circuit_half_open_probe_limit" },
    )
    else (
      record cb { probes_sent = cb.probes_sent +ℤ pos 1 },
      record { allowed = true; state = half_open; reason = "" },
    )
allow_at closed cb = (cb, record { allowed = true; state = closed; reason = "" })

unfoldable pub allow : ℤ → Breaker → Breaker × Decision
unfolding update_state allow_at
allow now cb = let cb' = update_state now cb in allow_at cb'.state cb'

success_at : State → ℤ → Breaker → Breaker
unfolding transition_to ◌+ℤ◌ ◌-ℤ◌
success_at closed now cb = record cb { consecutive_failures = pos 0 }
success_at half_open now cb =
    let successes = cb.probes_successful +ℤ pos 1 in
    if leb_ℤ cb.probes_required successes
    then transition_to closed now (record cb { probes_successful = successes })
    else record cb { probes_successful = successes; probes_sent = cb.probes_sent -ℤ pos 1 }
success_at open_state now cb = cb

unfoldable pub record_success : ℤ → Breaker → Breaker
unfolding update_state success_at
record_success now cb = let cb' = update_state now cb in success_at cb'.state now cb'

failure_at : State → ℤ → Breaker → Breaker
unfolding transition_to ◌+ℤ◌
failure_at closed now cb =
    let failures = cb.consecutive_failures +ℤ pos 1 in
    let counted = record cb { consecutive_failures = failures } in
    if leb_ℤ cb.threshold failures then transition_to open_state now counted else counted
failure_at half_open now cb = transition_to open_state now cb
failure_at open_state now cb = cb

unfoldable pub record_failure : ℤ → Breaker → Breaker
unfolding update_state failure_at
record_failure now cb = let cb' = update_state now cb in failure_at cb'.state now cb'

-- The method `State`.
unfoldable pub breaker_state : ℤ → Breaker → Breaker × State
unfolding update_state
breaker_state now cb = let cb' = update_state now cb in (cb', cb'.state)

-- A call on the breaker, as any caller makes it.
pub data Call : Type 0 where
  try_allow report_success report_failure ask_state : Call

unfoldable pub call : Call → ℤ → Breaker → Breaker
unfolding allow record_success record_failure breaker_state
call try_allow now cb = (allow now cb).0
call report_success now cb = record_success now cb
call report_failure now cb = record_failure now cb
call ask_state now cb = (breaker_state now cb).0

unfoldable pub run : List (Call × ℤ) → Breaker → Breaker
run [] cb = cb
run ((c, now) ∷ cs) cb = run cs (call c now cb)

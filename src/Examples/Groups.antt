-- ===== src/Examples/Groups.antt =====
-- retry/group.go on concrete schedules: one attempt that fails, and a hedge that wins.
use recourse.Common.{
  get_elem?, ℕ, ◌+◌, ◌*◌, ◌≤◌, true, false, ◌≡◌, refl, [], ◌∷◌, some, none, arith,
}
use recourse.Common.Int.{pos, ◌-ℤ◌, ◌+ℤ◌, ◌*ℤ◌, wrap_64}
use recourse.Policy.{HedgePolicy}
use recourse.Errors.{new}
use recourse.Classify.{outcome, success, retryable}
use recourse.Hedge.{LatencySnapshot}
use recourse.Hedge.Triggers.{fixed_delay, fixed_delay_at, delay_of, at_limit}
use recourse.Retry.Primary.{Sent, answer_of}
use recourse.Retry.Group.{
  running, sent, gone, armed, waiting, answered, GroupState, send, tick, receive, GroupConfig,
  limit, initial, launch_hedge, after_trigger, on_tick, on_send, on_receive, after_receive, step,
  Reach, start, later, run, hedge_state,
}
use recourse.Retry.Group.Invariant.{IsGroup, send_never_blocks}
use recourse.Retry.Group.Once.{sends, has_sent, sends_once}
use recourse.Retry.Group.Termination.{efforts, efforts-bounded, moves_left}
use recourse.Retry.Group.Origin.{HasAnswer, answered-HasAnswer}
use recourse.Retry.Group.Schedules.{
  IsStranded, early_load, lost_race, stranded, racing, failure_strands, success_lost,
}

abbrev hedging : HedgePolicy
hedging = record {
  enabled = true;
  max_hedges = pos 2;
  hedge_delay = pos 100_000_000;
  trigger_name = "";
  cancel_on_first_terminal = false;
  budget = record { name = ""; cost = pos 1 };
}

abbrev hedged : GroupConfig
hedged = record { hedge = hedging; trigger = fixed_delay (pos 100_000_000); start = pos 0 }

abbrev single : GroupConfig
single = record {
  hedge = record (hedging) { enabled = false };
  trigger = fixed_delay (pos 100_000_000);
  start = pos 0;
}

abbrev no_samples : LatencySnapshot
no_samples = record { p50 = pos 0; p90 = pos 0; p95 = pos 0; p99 = pos 0 }

abbrev busy : Sent ℕ
busy = record { value = some 0; err = some (new "busy"); outcome = outcome retryable "busy" }

abbrev seven : Sent ℕ
seven = record { value = some 7; err = none; outcome = outcome success "success" }

-- The states of a schedule in which the first hedge wins.
abbrev hedge_running : GroupState ℕ
hedge_running = record {
  attempts = running ∷ running ∷ [];
  active = 2;
  launched = 2;
  hedges_launched = 1;
  spawner = armed (pos 0);
  results = [];
  receiver = waiting;
  ctx_err = none;
}

abbrev hedge_won : GroupState ℕ
hedge_won = record (hedge_running) {
  attempts = running ∷ sent ∷ [];
  receiver = answered (answer_of seven);
}

abbrev hedge_sent : GroupState ℕ
hedge_sent = record (hedge_running) { attempts = running ∷ sent ∷ []; results = seven ∷ [] }

unfoldable spawned : Reach hedged hedge_running
unfolding step on_tick initial limit after_trigger launch_hedge hedge_state fixed_delay at_limit
    fixed_delay_at delay_of ◌-ℤ◌ ◌+ℤ◌ ◌*ℤ◌ wrap_64
spawned = later (tick (pos 150_000_000) no_samples) start refl

unfoldable won : Reach hedged hedge_won
unfolding spawned step on_send on_receive after_receive limit
won = later receive (later {t = hedge_sent} (send 1 seven) spawned refl) refl

sends_once_example :
    IsGroup hedged hedge_won
    × (sends hedged 1 won ≤ 1)
    × (sends hedged 1 won ≡ has_sent (get_elem? (running ∷ sent ∷ []) 1))
sends_once_example = sends_once hedged won 1

send_never_blocks_example :
    step hedged (send 0 busy) hedge_won
    ≡ some (record (hedge_won) { attempts = sent ∷ sent ∷ []; results = busy ∷ [] })
send_never_blocks_example = send_never_blocks hedged 0 busy won refl

efforts-bounded_example : efforts hedged won + moves_left hedged hedge_won ≤ 7 + 5 * limit hedged
efforts-bounded_example = efforts-bounded hedged won

answered-HasAnswer_example : HasAnswer hedged (λ r. r ≡ seven) none (answer_of seven)
unfolding won spawned
answered-HasAnswer_example =
    answered-HasAnswer hedged (λ r. r ≡ seven) won (answer_of seven) (refl, tt) refl

failure_strands_example :
    (run single (early_load single busy) (initial single) ≡ some (stranded single))
    × IsStranded {V = ℕ} single (stranded single)
failure_strands_example = failure_strands single busy refl refl refl

success_lost_example :
    run hedged (lost_race hedged (pos 150_000_000) no_samples busy seven) (initial hedged)
    ≡ some (racing hedged (gone ∷ gone ∷ []) 0 (seven ∷ []) (answered (answer_of busy)))
unfolding limit fixed_delay at_limit fixed_delay_at delay_of ◌-ℤ◌ ◌+ℤ◌ ◌*ℤ◌ wrap_64 hedge_state
    initial
success_lost_example =
    success_lost hedged (pos 150_000_000) no_samples busy seven (omega arith) refl refl refl

-- ===== src/Retry/Group.antt =====
-- `doRetryGroup` of retry/group.go, with its goroutines interleaved in any order: the attempts, the
-- goroutine that spawns hedges, and the loop that receives results. A move is one step of one of them.
-- What an attempt does before it sends its result is Retry/Primary; a move is given the result.
pub mod Invariant
pub mod Schedules
pub mod Termination
pub mod Origin
pub mod Once
use recourse.Common.{
  ℕ, zero, suc, ◌+◌, ◌-◌, Bool, true, false, List, [], ◌∷◌, ◌++◌, Option, none, some, if◌then◌else◌,
  ◌==◌, ◌&&◌, ◌||◌, ltb, leb, length, get_elem?, set, ◌≡◌, String,
}
use recourse.Common.Int.{ℤ, pos, pos_part, leb_ℤ}
use recourse.Common.Text.{is_empty}
use recourse.Common.Dict.{Dict}
use recourse.Policy.{HedgePolicy}
use recourse.Errors.{Err}
use recourse.Classify.{OutcomeKind, abort, non_retryable, Outcome, outcome}
use recourse.Hedge.{HedgeState, LatencySnapshot}
use recourse.Hedge.Triggers.{fixed_delay}
use recourse.Hedge.Registry.{get}
use recourse.Retry.Full.{GroupResult, is_terminal}
use recourse.Retry.Primary.{is_success, Sent, answer_of, cancelled}

-- `ShouldSpawnHedge`.
abbrev pub Trigger : Type 0
Trigger = HedgeState → Bool × ℤ

abbrev or_fixed_delay : ℤ → Option Trigger → Trigger
or_fixed_delay delay none = fixed_delay delay
or_fixed_delay delay (some t) = t

-- The trigger that the policy names, or the fixed delay; `none` is an executor without triggers.
unfoldable pub find_trigger : Option (Dict String Trigger) → HedgePolicy → Trigger
find_trigger none pol = fixed_delay pol.hedge_delay
find_trigger (some triggers) pol =
    if is_empty pol.trigger_name
    then fixed_delay pol.hedge_delay
    else or_fixed_delay pol.hedge_delay (get pol.trigger_name triggers)

-- Where an attempt is: before its send, between the send and the deferred `activeAttempts.Add(-1)`,
-- or after that.
pub data Phase : Type 0 where
  running sent gone : Phase

-- Where the goroutine that spawns hedges is: at its timer, which fires after a time; at its `select`
-- with the timer not set again; or returned.
pub data Spawner : Type 0 where
  armed : ℤ → Spawner
  unarmed stopped : Spawner

-- Where the receiver is: at its `select`, before `activeAttempts.Load()` with a failure, or returned.
pub data Receiver (V : Type 0) : Type 0 where
  waiting : Receiver V
  received : Sent V → Receiver V
  answered : GroupResult V → Receiver V

-- The attempts are in the order of their launch, the primary first; `results` is the channel, the
-- oldest first.
pub record GroupState (V : Type 0) : Type 0 where
  pub attempts : List Phase
  pub active : ℕ
  pub launched : ℕ
  pub hedges_launched : ℕ
  pub spawner : Spawner
  pub results : List (Sent V)
  pub receiver : Receiver V
  -- `ctx.Err()` of the outer context.
  pub ctx_err : Option Err

pub data Move (V : Type 0) : Type 0 where
  -- An attempt sends its result, and its deferred calls run.
  send : ℕ → Sent V → Move V
  leave : ℕ → Move V
  -- The timer fires, at a time after the start and with the tracker's snapshot; or the goroutine sees
  -- that the group is over.
  tick : ℤ → LatencySnapshot → Move V
  stop : Move V
  receive : Move V
  load : Move V
  -- The outer context ends with an error, and the receiver sees it.
  cancel : Err → Move V
  see_cancel : Move V

abbrev is_some : {A : Type 0} → Option A → Bool
is_some none = false
is_some (some a) = true

abbrev pub has_returned : {V : Type 0} → Receiver V → Bool
has_returned (answered g) = true
has_returned waiting = false
has_returned (received r) = false

-- The arguments of a group: the policy's hedging, its trigger, and the time of its start.
pub record GroupConfig : Type 0 where
  pub hedge : HedgePolicy
  pub trigger : Trigger
  pub start : ℤ

-- `maxHedges`, which is not negative in a normalised policy.
unfoldable pub limit : GroupConfig → ℕ
limit c = if c.hedge.enabled then pos_part c.hedge.max_hedges else 0

-- `if nextCheck <= 0 { nextCheck = 25 * time.Millisecond }`
unfoldable pub next_check : ℤ → ℤ
next_check d = if leb_ℤ d (pos 0) then pos 25_000_000 else d

abbrev is_stopped : Spawner → Bool
is_stopped stopped = true
is_stopped unarmed = false
is_stopped (armed d) = false

module _ {V : Type 0} (c : GroupConfig) where
  -- After `launch(0, false)`, with the goroutine for hedges at its first timer.
  unfoldable pub initial : GroupState V
  initial = record {
    attempts = running ∷ [];
    active = 1;
    launched = 1;
    hedges_launched = 0;
    spawner = if c.hedge.enabled then armed (pos 0) else stopped;
    results = [];
    receiver = waiting;
    ctx_err = none;
  }

  -- `launch(hedgesLaunched, true)` after `hedgesLaunched++`.
  unfoldable pub launch_hedge : GroupState V → GroupState V
  launch_hedge s = record s {
    attempts = s.attempts ++ (running ∷ []);
    active = suc s.active;
    launched = suc s.launched;
    hedges_launched = suc s.hedges_launched;
    spawner = if ltb (suc s.hedges_launched) (limit c) then armed (pos 0) else unarmed;
  }

  -- `hedge.HedgeState{…}`; the field `CallStart` is not set.
  unfoldable pub hedge_state : ℤ → LatencySnapshot → GroupState V → HedgeState
  hedge_state elapsed snapshot s = record {
    call_start = pos 0;
    attempt_start = c.start;
    attempts_launched = pos (suc s.hedges_launched);
    max_hedges = pos (limit c);
    elapsed = elapsed;
    snapshot = snapshot;
    hedge_delay = c.hedge.hedge_delay;
  }

  -- The timer's branch, after the trigger's answer.
  unfoldable pub after_trigger : Bool × ℤ → GroupState V → GroupState V
  after_trigger (should, next) s =
      if should then launch_hedge s else record s { spawner = armed (next_check next) }

  unfoldable pub on_tick : ℤ → LatencySnapshot → Spawner → GroupState V → Option (GroupState V)
  on_tick elapsed snapshot (armed d) s =
      if leb (limit c) s.hedges_launched
      then some (record s { spawner = stopped })
      else some (after_trigger (c.trigger (hedge_state elapsed snapshot s)) s)
  on_tick elapsed snapshot unarmed s = none
  on_tick elapsed snapshot stopped s = none

  -- `groupCtx` ends with the outer context, and when the receiver returns.
  unfoldable pub group_done : GroupState V → Bool
  group_done s = is_some s.ctx_err || has_returned s.receiver

  unfoldable pub on_stop : GroupState V → Option (GroupState V)
  on_stop s =
      if group_done s
      then (if is_stopped s.spawner then none else some (record s { spawner = stopped }))
      else none

  -- A send on the channel, which has room for `1 + maxHedges` results.
  unfoldable pub on_send : ℕ → Sent V → Option Phase → GroupState V → Option (GroupState V)
  on_send i r none s = none
  on_send i r (some running) s =
      if ltb (length s.results) (suc (limit c))
      then some (record s { attempts = set s.attempts i sent; results = s.results ++ (r ∷ []) })
      else none
  on_send i r (some sent) s = none
  on_send i r (some gone) s = none

  unfoldable pub on_leave : ℕ → Option Phase → GroupState V → Option (GroupState V)
  on_leave i none s = none
  on_leave i (some running) s = none
  on_leave i (some sent) s =
      some (record s { attempts = set s.attempts i gone; active = s.active - 1 })
  on_leave i (some gone) s = none

  -- What the receiver does with a result: a success wins, and a terminal failure ends the group where
  -- the policy says so.
  unfoldable pub after_receive : Sent V → Receiver V
  after_receive r =
      if is_success r.outcome.kind
      then answered (answer_of r)
      else if c.hedge.cancel_on_first_terminal && is_terminal r.outcome.kind
      then answered (answer_of r)
      else received r

  unfoldable pub on_receive : Receiver V → List (Sent V) → GroupState V → Option (GroupState V)
  on_receive waiting [] s = none
  on_receive waiting (r ∷ rs) s = some (record s { results = rs; receiver = after_receive r })
  on_receive (received r) rs s = none
  on_receive (answered g) rs s = none

  -- `if active == 0 { return … }`
  unfoldable pub on_load : Receiver V → GroupState V → Option (GroupState V)
  on_load waiting s = none
  on_load (received r) s =
      some (record s { receiver = if s.active == 0 then answered (answer_of r) else waiting })
  on_load (answered g) s = none

  unfoldable pub on_cancel : Option Err → Receiver V → GroupState V → Option (GroupState V)
  on_cancel none v s = none
  on_cancel (some e) waiting s = some (record s { receiver = answered (cancelled e) })
  on_cancel (some e) (received r) s = none
  on_cancel (some e) (answered g) s = none

  -- The outer context ends once.
  unfoldable pub on_end : Err → Option Err → GroupState V → Option (GroupState V)
  on_end e none s = some (record s { ctx_err = some e })
  on_end e (some x) s = none

  -- A move, `none` where it is not possible.
  unfoldable pub step : Move V → GroupState V → Option (GroupState V)
  step (send i r) s = on_send i r (get_elem? s.attempts i) s
  step (leave i) s = on_leave i (get_elem? s.attempts i) s
  step (tick elapsed snapshot) s = on_tick elapsed snapshot s.spawner s
  step stop s = on_stop s
  step receive s = on_receive s.receiver s.results s
  step load s = on_load s.receiver s
  step (cancel e) s = on_end e s.ctx_err s
  step see_cancel s = on_cancel s.ctx_err s.receiver s

  -- The states that a group can come to.
  pub data Reach : GroupState V → Type 0 where
    start : Reach initial
    later : {s t : GroupState V} (m : Move V) → Reach s → step m s ≡ some t → Reach t

  -- A schedule.
  unfoldable pub run : List (Move V) → GroupState V → Option (GroupState V)
  run [] s = some s
  run (m ∷ ms) s = elim (step m s) [ none ↦ none | some t ↦ run ms t ]

-- ===== src/Retry/Group/Schedules.antt =====
-- What particular schedules of a group come to.
use recourse.Common.{
  ℕ, zero, suc, ◌<◌, ◌∙◌, Bool, true, false, ◌≡◌, refl, List, [], ◌∷◌, none, some, arith,
  if◌then◌else◌, ◌&&◌, ltb,
}
use recourse.Common.Int.{ℤ, pos}
use recourse.Hedge.{LatencySnapshot}
use recourse.Retry.Full.{is_terminal}
use recourse.Retry.Primary.{is_success, Sent, answer_of}
use recourse.Retry.Group.{
  Phase, running, sent, gone, armed, unarmed, stopped, Receiver, waiting, received, answered,
  GroupState, Move, send, leave, tick, stop, receive, load, cancel, see_cancel, GroupConfig, limit,
  initial, launch_hedge, group_done, after_trigger, on_tick, on_stop, on_send, on_leave,
  after_receive, on_receive, on_load, on_cancel, step, run, hedge_state, has_returned,
}

abbrev is_cancel : {V : Type 0} → Move V → Bool
is_cancel (cancel e) = true
is_cancel _ = false

-- The group waits, with nothing that moves but the end of the outer context.
pub record IsStranded {V : Type 0} (c : GroupConfig) (s : GroupState V) : Type 0 where
  pub waits : s.receiver ≡ waiting
  pub no_move : (m : Move V) → is_cancel m ≡ false → step c m s ≡ none

module _ {V : Type 0} (c : GroupConfig) where
  -- The result of the only attempt is sent and received before its deferred calls run.
  abbrev pub early_load : Sent V → List (Move V)
  early_load r = send 0 r ∷ receive ∷ load ∷ leave 0 ∷ []

  abbrev pub stranded : GroupState V
  stranded = record {
    attempts = gone ∷ [];
    active = 0;
    launched = 1;
    hedges_launched = 0;
    spawner = stopped;
    results = [];
    receiver = waiting;
    ctx_err = none;
  }

  -- The state before the result is received, and the state after that.
  abbrev primary_sent : Sent V → GroupState V
  primary_sent r = record (stranded) { attempts = sent ∷ []; active = 1; results = r ∷ [] }

  abbrev primary_received : Sent V → GroupState V
  primary_received r = record (stranded) { attempts = sent ∷ []; active = 1; receiver = received r }

  sends_primary :
      (r : Sent V) → c.hedge.enabled ≡ false → step c (send 0 r) (initial c) ≡ some (primary_sent r)
  unfolding initial step on_send limit
  sends_primary r h = simp h refl

  receives_failure :
      (r : Sent V)
      → is_success r.outcome.kind ≡ false
      → (c.hedge.cancel_on_first_terminal && is_terminal r.outcome.kind) ≡ false
      → after_receive c r ≡ received r
  unfolding after_receive
  receives_failure r g k = simp (g, k) refl

  run-step :
      (m : Move V) (ms : List (Move V)) (s t : GroupState V)
      → step c m s ≡ some t
      → run c (m ∷ ms) s ≡ run c ms t
  unfolding run
  run-step m ms s t e = rw (e, run) refl

  receives_primary :
      (r : Sent V)
      → is_success r.outcome.kind ≡ false
      → (c.hedge.cancel_on_first_terminal && is_terminal r.outcome.kind) ≡ false
      → step c receive (primary_sent r) ≡ some (primary_received r)
  unfolding step on_receive
  receives_primary r g k = rw (receives_failure r g k) refl

  stranded_still : (m : Move V) → is_cancel m ≡ false → step c m stranded ≡ none
  unfolding step on_send on_leave on_tick on_stop on_receive on_load on_cancel group_done
  stranded_still (send zero r) h = refl
  stranded_still (send (suc i) r) h = refl
  stranded_still (leave zero) h = refl
  stranded_still (leave (suc i)) h = refl
  stranded_still (tick elapsed snapshot) h = refl
  stranded_still stop h = refl
  stranded_still receive h = refl
  stranded_still load h = refl
  stranded_still (cancel e) h = cc
  stranded_still see_cancel h = refl

  -- In a group without hedges, every failure of its attempt that does not end the group at once can
  -- strand it: there is a schedule after which no attempt, no result and no goroutine is left, and the
  -- group waits until its context ends.
  pub failure_strands :
      (r : Sent V)
      → c.hedge.enabled ≡ false
      → is_success r.outcome.kind ≡ false
      → (c.hedge.cancel_on_first_terminal && is_terminal r.outcome.kind) ≡ false
      → (run c (early_load r) (initial c) ≡ some stranded) × IsStranded c stranded
  unfolding run step on_leave on_load
  failure_strands r h g k = (
    run-step (send 0 r) (receive ∷ load ∷ leave 0 ∷ []) (initial c) (primary_sent r)
          (sends_primary r h)
        ∙ run-step receive (load ∷ leave 0 ∷ []) (primary_sent r) (primary_received r)
            (receives_primary r g k),
    record { waits = refl; no_move = stranded_still },
  )

  -- The state in which the receiver finds the only attempt gone.
  abbrev pub primary_left : Receiver V → List (Sent V) → GroupState V
  primary_left v rs = record (stranded) { receiver = v; results = rs }

  -- A schedule that returns the answer of the only attempt's result.
  abbrev pub late_load : Sent V → List (Move V)
  late_load r =
      send 0 r ∷ leave 0 ∷ receive ∷ (if has_returned (after_receive c r) then [] else load ∷ [])

  settles :
      (r : Sent V)
      → run c
          (receive ∷ (if has_returned (after_receive c r) then [] else load ∷ []))
          (primary_left waiting (r ∷ []))
        ≡ some (primary_left (answered (answer_of r)) [])
  unfolding run step on_receive on_load after_receive
  settles r = ground arith

  -- In a group without hedges, every result of its attempt can be answered: in the schedule in which
  -- the attempt's deferred calls run before the receiver reads the count, the group returns the answer
  -- of that result, and nothing is left of it.
  pub primary_settles :
      (r : Sent V)
      → c.hedge.enabled ≡ false
      → run c (late_load r) (initial c) ≡ some (primary_left (answered (answer_of r)) [])
  unfolding step on_leave
  primary_settles r h =
      run-step (send 0 r) _ (initial c) (primary_sent r) (sends_primary r h)
      ∙ run-step (leave 0) _ (primary_sent r) (primary_left waiting (r ∷ [])) refl
      ∙ settles r

  -- The schedule in which the first hedge succeeds while the receiver holds the primary's failure.
  abbrev pub lost_race : ℤ → LatencySnapshot → Sent V → Sent V → List (Move V)
  lost_race elapsed snapshot r won =
      tick elapsed snapshot ∷ send 0 r ∷ send 1 won ∷ receive ∷ leave 0 ∷ leave 1 ∷ load ∷ []

  -- The states of that schedule.
  abbrev pub racing : List Phase → ℕ → List (Sent V) → Receiver V → GroupState V
  racing ps active rs v = record {
    attempts = ps;
    active = active;
    launched = 2;
    hedges_launched = 1;
    spawner = if ltb 1 (limit c) then armed (pos 0) else unarmed;
    results = rs;
    receiver = v;
    ctx_err = none;
  }

  spawns_first :
      (elapsed : ℤ) (snapshot : LatencySnapshot)
      → 0 < limit c
      → (c.trigger (hedge_state c elapsed snapshot (initial {V = V} c))).0 ≡ true
      → step c (tick elapsed snapshot) (initial c)
        ≡ some (racing (running ∷ running ∷ []) 2 [] waiting)
  unfolding step on_tick initial after_trigger launch_hedge limit
  spawns_first elapsed snapshot h t = ground arith

  sends_first :
      (r : Sent V)
      → step c (send 0 r) (racing (running ∷ running ∷ []) 2 [] waiting)
        ≡ some (racing (sent ∷ running ∷ []) 2 (r ∷ []) waiting)
  unfolding step on_send
  sends_first r = ground arith

  sends_second :
      (r won : Sent V)
      → 0 < limit c
      → step c (send 1 won) (racing (sent ∷ running ∷ []) 2 (r ∷ []) waiting)
        ≡ some (racing (sent ∷ sent ∷ []) 2 (r ∷ won ∷ []) waiting)
  unfolding step on_send
  sends_second r won h = ground arith

  receives_first :
      (r won : Sent V)
      → is_success r.outcome.kind ≡ false
      → (c.hedge.cancel_on_first_terminal && is_terminal r.outcome.kind) ≡ false
      → step c receive (racing (sent ∷ sent ∷ []) 2 (r ∷ won ∷ []) waiting)
        ≡ some (racing (sent ∷ sent ∷ []) 2 (won ∷ []) (received r))
  unfolding step on_receive
  receives_first r won g k = rw (receives_failure r g k) refl

  -- With hedging on, a success can be lost: where the trigger asks for a hedge at the first tick and
  -- the primary attempt fails without ending the group at once, there is a schedule in which the hedge
  -- has sent its result, a success included, and the group returns the failure of the primary attempt,
  -- with the hedge's result left in the channel.
  pub success_lost :
      (elapsed : ℤ) (snapshot : LatencySnapshot) (r won : Sent V)
      → 0 < limit c
      → (c.trigger (hedge_state c elapsed snapshot (initial {V = V} c))).0 ≡ true
      → is_success r.outcome.kind ≡ false
      → (c.hedge.cancel_on_first_terminal && is_terminal r.outcome.kind) ≡ false
      → run c (lost_race elapsed snapshot r won) (initial c)
        ≡ some (racing (gone ∷ gone ∷ []) 0 (won ∷ []) (answered (answer_of r)))
  unfolding run step on_leave on_load
  success_lost elapsed snapshot r won h t g k =
      let first = racing (running ∷ running ∷ []) 2 [] waiting in
      let second = racing (sent ∷ running ∷ []) 2 (r ∷ []) waiting in
      let third = racing (sent ∷ sent ∷ []) 2 (r ∷ won ∷ []) waiting in
      let after : List (Move V) = leave 0 ∷ leave 1 ∷ load ∷ [] in
      run-step (tick elapsed snapshot) (send 0 r ∷ send 1 won ∷ receive ∷ after) (initial c) first
        (spawns_first elapsed snapshot h t)
      ∙ run-step (send 0 r) (send 1 won ∷ receive ∷ after) first second (sends_first r)
      ∙ run-step (send 1 won) (receive ∷ after) second third (sends_second r won h)
      ∙ run-step receive after third (racing (sent ∷ sent ∷ []) 2 (won ∷ []) (received r))
          (receives_first r won g k)

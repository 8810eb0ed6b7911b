-- ===== src/Retry/Group/Termination.antt =====
-- A group makes only so many moves, but for the ticks of its timer.
use recourse.Common.{
  ℕ, zero, suc, ◌+◌, ◌*◌, ◌-◌, ◌≤◌, Bool, true, false, ◌≡◌, refl, ap, List, [], ◌∷◌, ◌++◌, Option,
  none, some, arith, if◌then◌else◌, length, length-append, get_elem?, set,
}
use recourse.Common.Int.{ℤ}
use recourse.Errors.{Err}
use recourse.Hedge.{LatencySnapshot}
use recourse.Retry.Primary.{Sent}
use recourse.Retry.Group.{
  Phase, running, sent, gone, Spawner, armed, unarmed, stopped, Receiver, waiting, received,
  answered, GroupState, Move, send, leave, tick, stop, receive, load, cancel, see_cancel,
  GroupConfig, limit, initial, launch_hedge, after_trigger, on_tick, on_stop, on_send, on_leave,
  after_receive, on_receive, on_load, on_cancel, on_end, step, Reach, start, later, hedge_state,
}
use recourse.Retry.Group.Invariant.{After, After-some}

-- The moves that an attempt, the receiver and the goroutine for hedges still have.
unfoldable pub attempt_moves : List Phase → ℕ
attempt_moves [] = 0
attempt_moves (running ∷ ps) = 4 + attempt_moves ps
attempt_moves (sent ∷ ps) = 1 + attempt_moves ps
attempt_moves (gone ∷ ps) = attempt_moves ps

abbrev pub receiver_moves : {V : Type 0} → Receiver V → ℕ
receiver_moves waiting = 1
receiver_moves (received r) = 2
receiver_moves (answered g) = 0

abbrev pub spawner_moves : Spawner → ℕ
spawner_moves (armed d) = 1
spawner_moves unarmed = 1
spawner_moves stopped = 0

unfoldable pub moves_left : {V : Type 0} → GroupConfig → GroupState V → ℕ
moves_left c s =
    attempt_moves s.attempts
    + 2 * length s.results
    + receiver_moves s.receiver
    + spawner_moves s.spawner
    + elim s.ctx_err [ none ↦ 1 | some e ↦ 0 ]
    + 5 * (limit c - s.hedges_launched)

abbrev pub is_tick : {V : Type 0} → Move V → Bool
is_tick (tick elapsed snapshot) = true
is_tick _ = false

moves-append : (xs ys : List Phase) → attempt_moves (xs ++ ys) ≡ attempt_moves xs + attempt_moves ys
unfolding attempt_moves
moves-append [] ys = omega arith
moves-append (running ∷ xs) ys = ground (arith, moves-append xs ys)
moves-append (sent ∷ xs) ys = ground (arith, moves-append xs ys)
moves-append (gone ∷ xs) ys = moves-append xs ys

moves-send :
    (ps : List Phase) (i : ℕ)
    → get_elem? ps i ≡ some running
    → attempt_moves (set ps i sent) + 3 ≡ attempt_moves ps
unfolding attempt_moves
moves-send [] i h = cc
moves-send (p ∷ ps) zero h = ground arith
moves-send (running ∷ ps) (suc i) h = ground (arith, moves-send ps i h)
moves-send (sent ∷ ps) (suc i) h = ground (arith, moves-send ps i h)
moves-send (gone ∷ ps) (suc i) h = ground (arith, moves-send ps i h)

moves-leave :
    (ps : List Phase) (i : ℕ)
    → get_elem? ps i ≡ some sent
    → attempt_moves (set ps i gone) + 1 ≡ attempt_moves ps
unfolding attempt_moves
moves-leave [] i h = cc
moves-leave (p ∷ ps) zero h = ground arith
moves-leave (running ∷ ps) (suc i) h = ground (arith, moves-leave ps i h)
moves-leave (sent ∷ ps) (suc i) h = ground (arith, moves-leave ps i h)
moves-leave (gone ∷ ps) (suc i) h = ground (arith, moves-leave ps i h)

module _ {V : Type 0} (c : GroupConfig) where
  -- `n` moves fewer are left than in `s`, at least.
  abbrev Fewer : ℕ → GroupState V → GroupState V → Type 0
  Fewer n s t = n + moves_left c t ≤ moves_left c s

  on_tick-Fewer :
      (elapsed : ℤ) (snapshot : LatencySnapshot) (sp : Spawner) (s : GroupState V)
      → s.spawner ≡ sp
      → After (Fewer 0 s) (on_tick c elapsed snapshot sp s)
  unfolding on_tick after_trigger launch_hedge moves_left attempt_moves
  on_tick-Fewer elapsed snapshot (armed d) s h =
      let (should, next) = c.trigger (hedge_state c elapsed snapshot s) in
      ground (arith, ap spawner_moves h, moves-append s.attempts (running ∷ []))
  on_tick-Fewer elapsed snapshot unarmed s h = tt
  on_tick-Fewer elapsed snapshot stopped s h = tt

  on_stop-Fewer : (s : GroupState V) → After (Fewer 1 s) (on_stop c s)
  unfolding on_stop moves_left
  on_stop-Fewer s = ground arith

  on_send-Fewer :
      (i : ℕ) (r : Sent V) (p : Option Phase) (s : GroupState V)
      → get_elem? s.attempts i ≡ p
      → After (Fewer 1 s) (on_send c i r p s)
  unfolding on_send moves_left
  on_send-Fewer i r none s h = tt
  on_send-Fewer i r (some running) s h =
      ground (arith, moves-send s.attempts i h, length-append s.results (r ∷ []))
  on_send-Fewer i r (some sent) s h = tt
  on_send-Fewer i r (some gone) s h = tt

  on_leave-Fewer :
      (i : ℕ) (p : Option Phase) (s : GroupState V)
      → get_elem? s.attempts i ≡ p
      → After (Fewer 1 s) (on_leave c i p s)
  unfolding on_leave moves_left
  on_leave-Fewer i none s h = tt
  on_leave-Fewer i (some running) s h = tt
  on_leave-Fewer i (some sent) s h = ground (arith, moves-leave s.attempts i h)
  on_leave-Fewer i (some gone) s h = tt

  on_receive-Fewer :
      (rs : List (Sent V)) (v : Receiver V) (s : GroupState V)
      → s.results ≡ rs
      → s.receiver ≡ v
      → After (Fewer 1 s) (on_receive c v rs s)
  unfolding on_receive after_receive moves_left
  on_receive-Fewer [] waiting s h g = tt
  on_receive-Fewer (r ∷ rs) waiting s h g = ground (arith, ap length h, ap receiver_moves g)
  on_receive-Fewer rs (received r) s h g = tt
  on_receive-Fewer rs (answered a) s h g = tt

  on_load-Fewer :
      (v : Receiver V) (s : GroupState V) → s.receiver ≡ v → After (Fewer 1 s) (on_load c v s)
  unfolding on_load moves_left
  on_load-Fewer waiting s g = tt
  on_load-Fewer (received r) s g = ground (arith, ap receiver_moves g)
  on_load-Fewer (answered a) s g = tt

  on_cancel-Fewer :
      (ctx : Option Err) (v : Receiver V) (s : GroupState V)
      → s.receiver ≡ v
      → After (Fewer 1 s) (on_cancel c ctx v s)
  unfolding on_cancel moves_left
  on_cancel-Fewer none v s g = tt
  on_cancel-Fewer (some e) waiting s g = ground (arith, ap receiver_moves g)
  on_cancel-Fewer (some e) (received r) s g = tt
  on_cancel-Fewer (some e) (answered a) s g = tt

  on_end-Fewer :
      (x : Err) (ctx : Option Err) (s : GroupState V)
      → s.ctx_err ≡ ctx
      → After (Fewer 1 s) (on_end c x ctx s)
  unfolding on_end moves_left
  on_end-Fewer x none s h = rw h (omega arith)
  on_end-Fewer x (some y) s h = tt

  -- A move leaves fewer, and a tick no more.
  step-Fewer :
      (m : Move V) (s : GroupState V) → After (Fewer (if is_tick m then 0 else 1) s) (step c m s)
  unfolding step moves_left
  step-Fewer (send i r) s = on_send-Fewer i r (get_elem? s.attempts i) s refl
  step-Fewer (leave i) s = on_leave-Fewer i (get_elem? s.attempts i) s refl
  step-Fewer (tick elapsed snapshot) s = on_tick-Fewer elapsed snapshot s.spawner s refl
  step-Fewer stop s = on_stop-Fewer s
  step-Fewer receive s = on_receive-Fewer s.results s.receiver s refl refl
  step-Fewer load s = on_load-Fewer s.receiver s refl
  step-Fewer (cancel e) s = on_end-Fewer e s.ctx_err s refl
  step-Fewer see_cancel s = on_cancel-Fewer s.ctx_err s.receiver s refl

  -- The moves of a schedule that are no ticks.
  pub efforts : {s : GroupState V} → Reach c s → ℕ
  efforts start = 0
  efforts (later m r e) = (if is_tick m then 0 else 1) + efforts r

  -- However its goroutines interleave, the moves of a group that are not ticks of the timer, those that
  -- it has made and those that its measure leaves to it, are at most `7 + 5 MaxHedges`. Of the number
  -- of ticks this says nothing.
  pub efforts-bounded :
      {s : GroupState V} (r : Reach c s) → efforts r + moves_left c s ≤ 7 + 5 * limit c
  unfolding efforts initial moves_left attempt_moves
  efforts-bounded start = ground arith
  efforts-bounded (later {s} m r e) =
      let fewer = After-some (Fewer (if is_tick m then 0 else 1) s) e (step-Fewer m s) in
      omega (arith, fewer, efforts-bounded r)

-- ===== src/Retry/Group/Invariant.antt =====
-- What holds in every state that a group of attempts can come to.
use recourse.Common.{
  ℕ, zero, suc, ◌+◌, ◌≤◌, ◌<◌, Bool, true, false, ◌≡◌, refl, ap, List, [], ◌∷◌, ◌++◌, Option, none,
  some, arith, length, length-append, length-set, get_elem?, set,
}
use recourse.Common.Int.{ℤ}
use mathlib.Core.Path.{subst}
use recourse.Errors.{Err}
use recourse.Hedge.{LatencySnapshot}
use recourse.Retry.Primary.{is_success, Sent}
use recourse.Retry.Group.{
  Phase, running, sent, gone, Spawner, armed, unarmed, stopped, Receiver, waiting, received,
  answered, GroupState, Move, send, leave, tick, stop, receive, load, cancel, see_cancel,
  GroupConfig, limit, initial, launch_hedge, after_trigger, on_tick, on_stop, on_send, on_leave,
  after_receive, on_receive, on_load, on_cancel, on_end, step, Reach, start, later, hedge_state,
}

-- How many attempts have not sent their result, and how many have not ended.
unfoldable pub running_count : List Phase → ℕ
running_count [] = 0
running_count (running ∷ ps) = suc (running_count ps)
running_count (sent ∷ ps) = running_count ps
running_count (gone ∷ ps) = running_count ps

unfoldable pub active_count : List Phase → ℕ
active_count [] = 0
active_count (running ∷ ps) = suc (active_count ps)
active_count (sent ∷ ps) = suc (active_count ps)
active_count (gone ∷ ps) = active_count ps

-- The result that the group has returned is a success exactly where its outcome is.
abbrev pub IsHonest : {V : Type 0} → Receiver V → Type 0
IsHonest waiting = Unit
IsHonest (received r) = is_success r.outcome.kind ≡ false
IsHonest (answered g) = g.won ≡ is_success g.outcome.kind

pub record IsGroup {V : Type 0} (c : GroupConfig) (s : GroupState V) : Type 0 where
  -- The counters are those of the attempts.
  pub active_exact : s.active ≡ active_count s.attempts
  pub launched_exact : s.launched ≡ length s.attempts
  pub hedges_exact : length s.attempts ≡ suc s.hedges_launched
  pub hedges_few : s.hedges_launched ≤ limit c
  -- What is in the channel was sent by attempts that run no more.
  pub results_few : length s.results + running_count s.attempts ≤ length s.attempts
  pub honest : IsHonest s.receiver

running-append :
    (xs ys : List Phase) → running_count (xs ++ ys) ≡ running_count xs + running_count ys
unfolding running_count
running-append [] ys = omega arith
running-append (running ∷ xs) ys = ground (arith, running-append xs ys)
running-append (sent ∷ xs) ys = running-append xs ys
running-append (gone ∷ xs) ys = running-append xs ys

active-append : (xs ys : List Phase) → active_count (xs ++ ys) ≡ active_count xs + active_count ys
unfolding active_count
active-append [] ys = omega arith
active-append (running ∷ xs) ys = ground (arith, active-append xs ys)
active-append (sent ∷ xs) ys = ground (arith, active-append xs ys)
active-append (gone ∷ xs) ys = active-append xs ys

-- An attempt that sends runs no more, and is active still; one that leaves is not.
count-send :
    (ps : List Phase) (i : ℕ)
    → get_elem? ps i ≡ some running
    → (suc (running_count (set ps i sent)) ≡ running_count ps)
      × (active_count (set ps i sent) ≡ active_count ps)
unfolding running_count active_count
count-send [] i h = cc
count-send (p ∷ ps) zero h = ground arith
count-send (running ∷ ps) (suc i) h = ground (arith, count-send ps i h)
count-send (sent ∷ ps) (suc i) h = ground (arith, count-send ps i h)
count-send (gone ∷ ps) (suc i) h = ground (arith, count-send ps i h)

count-leave :
    (ps : List Phase) (i : ℕ)
    → get_elem? ps i ≡ some sent
    → (running_count (set ps i gone) ≡ running_count ps)
      × (suc (active_count (set ps i gone)) ≡ active_count ps)
unfolding running_count active_count
count-leave [] i h = cc
count-leave (p ∷ ps) zero h = ground arith
count-leave (running ∷ ps) (suc i) h = ground (arith, count-leave ps i h)
count-leave (sent ∷ ps) (suc i) h = ground (arith, count-leave ps i h)
count-leave (gone ∷ ps) (suc i) h = ground (arith, count-leave ps i h)

-- Of the state that a move gives, if it is possible.
abbrev pub After : {V : Type 0} → (GroupState V → Type 0) → Option (GroupState V) → Type 0
After P none = Unit
After P (some t) = P t

pub After-some :
    {V : Type 0} (P : GroupState V → Type 0) {o : Option (GroupState V)} {t : GroupState V}
    → o ≡ some t
    → After P o
    → P t
After-some P e h = subst (After P) e h

module _ {V : Type 0} (c : GroupConfig) where
  initial-IsGroup : IsGroup c (initial {V = V} c)
  unfolding initial running_count active_count
  initial-IsGroup = ground arith

  launch_hedge-IsGroup :
      (s : GroupState V) → s.hedges_launched < limit c → IsGroup c s → IsGroup c (launch_hedge c s)
  unfolding launch_hedge running_count active_count
  launch_hedge-IsGroup s h inv = ground (
    arith,
    inv,
    running-append s.attempts (running ∷ []),
    active-append s.attempts (running ∷ []),
    length-append s.attempts (running ∷ []),
  )

  after_trigger-IsGroup :
      (answer : Bool × ℤ) (s : GroupState V)
      → s.hedges_launched < limit c
      → IsGroup c s
      → IsGroup c (after_trigger c answer s)
  unfolding after_trigger
  after_trigger-IsGroup (true, next) s h inv = launch_hedge-IsGroup s h inv
  after_trigger-IsGroup (false, next) s h inv = ground (arith, inv)

  on_tick-IsGroup :
      (elapsed : ℤ) (snapshot : LatencySnapshot) (sp : Spawner) (s : GroupState V)
      → IsGroup c s
      → After (IsGroup c) (on_tick c elapsed snapshot sp s)
  unfolding on_tick
  on_tick-IsGroup elapsed snapshot (armed d) s inv =
      ground (arith, inv, after_trigger-IsGroup (c.trigger (hedge_state c elapsed snapshot s)) s)
  on_tick-IsGroup elapsed snapshot unarmed s inv = tt
  on_tick-IsGroup elapsed snapshot stopped s inv = tt

  on_stop-IsGroup : (s : GroupState V) → IsGroup c s → After (IsGroup c) (on_stop c s)
  unfolding on_stop
  on_stop-IsGroup s inv = ground (arith, inv)

  on_send-IsGroup :
      (i : ℕ) (r : Sent V) (p : Option Phase) (s : GroupState V)
      → get_elem? s.attempts i ≡ p
      → IsGroup c s
      → After (IsGroup c) (on_send c i r p s)
  unfolding on_send
  on_send-IsGroup i r none s h inv = tt
  on_send-IsGroup i r (some running) s h inv = ground (
    arith,
    inv,
    count-send s.attempts i h,
    length-set s.attempts i sent,
    length-append s.results (r ∷ []),
  )
  on_send-IsGroup i r (some sent) s h inv = tt
  on_send-IsGroup i r (some gone) s h inv = tt

  on_leave-IsGroup :
      (i : ℕ) (p : Option Phase) (s : GroupState V)
      → get_elem? s.attempts i ≡ p
      → IsGroup c s
      → After (IsGroup c) (on_leave c i p s)
  unfolding on_leave
  on_leave-IsGroup i none s h inv = tt
  on_leave-IsGroup i (some running) s h inv = tt
  on_leave-IsGroup i (some sent) s h inv =
      ground (arith, inv, count-leave s.attempts i h, length-set s.attempts i gone)
  on_leave-IsGroup i (some gone) s h inv = tt

  after_receive-IsHonest : (r : Sent V) → IsHonest (after_receive c r)
  unfolding after_receive
  after_receive-IsHonest r = ground arith

  on_receive-IsGroup :
      (rs : List (Sent V)) (v : Receiver V) (s : GroupState V)
      → s.results ≡ rs
      → IsGroup c s
      → After (IsGroup c) (on_receive c v rs s)
  unfolding on_receive
  on_receive-IsGroup [] waiting s h inv = tt
  on_receive-IsGroup (r ∷ rs) waiting s h inv =
      ground (arith, inv, ap length h, after_receive-IsHonest r)
  on_receive-IsGroup rs (received r) s h inv = tt
  on_receive-IsGroup rs (answered g) s h inv = tt

  on_load-IsGroup :
      (v : Receiver V) (s : GroupState V)
      → s.receiver ≡ v
      → IsGroup c s
      → After (IsGroup c) (on_load c v s)
  unfolding on_load
  on_load-IsGroup waiting s h inv = tt
  on_load-IsGroup (received r) s h inv =
      let honest : IsHonest (received r) = subst IsHonest h inv.honest in
      ground (arith, inv, honest)
  on_load-IsGroup (answered g) s h inv = tt

  on_cancel-IsGroup :
      (ctx : Option Err) (v : Receiver V) (s : GroupState V)
      → IsGroup c s
      → After (IsGroup c) (on_cancel c ctx v s)
  unfolding on_cancel
  on_cancel-IsGroup none v s inv = tt
  on_cancel-IsGroup (some e) waiting s inv = ground (arith, inv)
  on_cancel-IsGroup (some e) (received r) s inv = tt
  on_cancel-IsGroup (some e) (answered g) s inv = tt

  on_end-IsGroup :
      (x : Err) (ctx : Option Err) (s : GroupState V)
      → IsGroup c s
      → After (IsGroup c) (on_end c x ctx s)
  unfolding on_end
  on_end-IsGroup x none s inv = ground (arith, inv)
  on_end-IsGroup x (some y) s inv = tt

  step-IsGroup : (m : Move V) (s : GroupState V) → IsGroup c s → After (IsGroup c) (step c m s)
  unfolding step
  step-IsGroup (send i r) s inv = on_send-IsGroup i r (get_elem? s.attempts i) s refl inv
  step-IsGroup (leave i) s inv = on_leave-IsGroup i (get_elem? s.attempts i) s refl inv
  step-IsGroup (tick elapsed snapshot) s inv = on_tick-IsGroup elapsed snapshot s.spawner s inv
  step-IsGroup stop s inv = on_stop-IsGroup s inv
  step-IsGroup receive s inv = on_receive-IsGroup s.results s.receiver s refl inv
  step-IsGroup load s inv = on_load-IsGroup s.receiver s refl inv
  step-IsGroup (cancel e) s inv = on_end-IsGroup e s.ctx_err s inv
  step-IsGroup see_cancel s inv = on_cancel-IsGroup s.ctx_err s.receiver s inv

  -- In every state that a group can come to, however its goroutines interleave, the counters are those
  -- of the attempts, there are at most `MaxHedges` hedges, the channel holds no more results than there
  -- are attempts past their send, and what the group has returned counts as a success exactly where its outcome is a success.
  pub Reach-IsGroup : {s : GroupState V} → Reach c s → IsGroup c s
  Reach-IsGroup start = initial-IsGroup
  Reach-IsGroup (later m r e) = After-some (IsGroup c) e (step-IsGroup m _ (Reach-IsGroup r))

  -- An attempt that has not sent its result can send it: the channel has room in every state that a
  -- group can come to, so no attempt waits for the receiver.
  pub send_never_blocks :
      {s : GroupState V} (i : ℕ) (r : Sent V)
      → Reach c s
      → get_elem? s.attempts i ≡ some running
      → step c (send i r) s
        ≡ some (record s { attempts = set s.attempts i sent; results = s.results ++ (r ∷ []) })
  unfolding step on_send
  send_never_blocks {s} i r reach h =
      rw h (ground (arith, Reach-IsGroup reach, count-send s.attempts i h))

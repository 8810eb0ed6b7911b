-- ===== src/Retry/Group/Once.antt =====
-- How often an attempt of a group sends.
use recourse.Common.{
  ℕ, zero, suc, ◌+◌, ◌≤◌, ◌==◌, Bool, true, false, ◌≡◌, refl, List, [], ◌∷◌, ◌++◌, Option, none,
  some, arith, if◌then◌else◌, get_elem?, set,
}
use recourse.Common.Int.{ℤ}
use recourse.Errors.{Err}
use recourse.Hedge.{LatencySnapshot}
use recourse.Retry.Primary.{Sent}
use recourse.Retry.Group.{
  Phase, running, sent, gone, Spawner, armed, unarmed, stopped, Receiver, waiting, received,
  answered, GroupState, Move, send, leave, tick, stop, receive, load, cancel, see_cancel,
  GroupConfig, initial, launch_hedge, after_trigger, on_tick, on_stop, on_send, on_leave,
  on_receive, on_load, on_cancel, on_end, step, Reach, start, later, hedge_state,
}
use recourse.Retry.Group.Invariant.{After, After-some, IsGroup, Reach-IsGroup}

abbrev pub has_sent : Option Phase → ℕ
has_sent none = 0
has_sent (some running) = 0
has_sent (some sent) = 1
has_sent (some gone) = 1

abbrev pub is_send : {V : Type 0} → ℕ → Move V → ℕ
is_send i (send j r) = if i == j then 1 else 0
is_send i _ = 0

sent-append :
    (ps : List Phase) (i : ℕ)
    → has_sent (get_elem? (ps ++ (running ∷ [])) i) ≡ has_sent (get_elem? ps i)
sent-append [] zero = refl
sent-append [] (suc i) = refl
sent-append (p ∷ ps) zero = refl
sent-append (p ∷ ps) (suc i) = sent-append ps i

sent-set :
    (ps : List Phase) (j i : ℕ)
    → get_elem? ps j ≡ some running
    → has_sent (get_elem? (set ps j sent) i) ≡ (if i == j then 1 else 0) + has_sent (get_elem? ps i)
sent-set [] j i h = cc
sent-set (p ∷ ps) zero zero h = ground (arith, h)
sent-set (p ∷ ps) zero (suc i) h = ground arith
sent-set (p ∷ ps) (suc j) zero h = ground arith
sent-set (p ∷ ps) (suc j) (suc i) h = ground (arith, sent-set ps j i h)

gone-set :
    (ps : List Phase) (j i : ℕ)
    → get_elem? ps j ≡ some sent
    → has_sent (get_elem? (set ps j gone) i) ≡ has_sent (get_elem? ps i)
gone-set [] j i h = cc
gone-set (p ∷ ps) zero zero h = ground (arith, h)
gone-set (p ∷ ps) zero (suc i) h = refl
gone-set (p ∷ ps) (suc j) zero h = refl
gone-set (p ∷ ps) (suc j) (suc i) h = gone-set ps j i h

initial_counted : (i : ℕ) → 0 ≡ has_sent (get_elem? (running ∷ []) i)
initial_counted zero = refl
initial_counted (suc i) = refl

module _ {V : Type 0} (c : GroupConfig) (i : ℕ) where
  -- Attempt `i` has sent `n` times more than in `s`.
  abbrev Adds : ℕ → GroupState V → GroupState V → Type 0
  Adds n s t = has_sent (get_elem? t.attempts i) ≡ n + has_sent (get_elem? s.attempts i)

  trigger-Adds : (answer : Bool × ℤ) (s : GroupState V) → Adds 0 s (after_trigger c answer s)
  unfolding after_trigger launch_hedge
  trigger-Adds (true, next) s = ground (arith, sent-append s.attempts i)
  trigger-Adds (false, next) s = ground arith

  tick-Adds :
      (elapsed : ℤ) (snapshot : LatencySnapshot) (sp : Spawner) (s : GroupState V)
      → After (Adds 0 s) (on_tick c elapsed snapshot sp s)
  unfolding on_tick
  tick-Adds elapsed snapshot (armed d) s =
      ground (arith, trigger-Adds (c.trigger (hedge_state c elapsed snapshot s)) s)
  tick-Adds elapsed snapshot unarmed s = tt
  tick-Adds elapsed snapshot stopped s = tt

  stop-Adds : (s : GroupState V) → After (Adds 0 s) (on_stop c s)
  unfolding on_stop
  stop-Adds s = ground arith

  send-Adds :
      (j : ℕ) (r : Sent V) (p : Option Phase) (s : GroupState V)
      → get_elem? s.attempts j ≡ p
      → After (Adds (if i == j then 1 else 0) s) (on_send c j r p s)
  unfolding on_send
  send-Adds j r none s h = tt
  send-Adds j r (some running) s h = ground (arith, sent-set s.attempts j i h)
  send-Adds j r (some sent) s h = tt
  send-Adds j r (some gone) s h = tt

  leave-Adds :
      (j : ℕ) (p : Option Phase) (s : GroupState V)
      → get_elem? s.attempts j ≡ p
      → After (Adds 0 s) (on_leave c j p s)
  unfolding on_leave
  leave-Adds j none s h = tt
  leave-Adds j (some running) s h = tt
  leave-Adds j (some sent) s h = ground (arith, gone-set s.attempts j i h)
  leave-Adds j (some gone) s h = tt

  receive-Adds :
      (rs : List (Sent V)) (v : Receiver V) (s : GroupState V)
      → After (Adds 0 s) (on_receive c v rs s)
  unfolding on_receive
  receive-Adds [] waiting s = tt
  receive-Adds (r ∷ rs) waiting s = ground arith
  receive-Adds rs (received r) s = tt
  receive-Adds rs (answered a) s = tt

  load-Adds : (v : Receiver V) (s : GroupState V) → After (Adds 0 s) (on_load c v s)
  unfolding on_load
  load-Adds waiting s = tt
  load-Adds (received r) s = ground arith
  load-Adds (answered a) s = tt

  cancel-Adds :
      (ctx : Option Err) (v : Receiver V) (s : GroupState V)
      → After (Adds 0 s) (on_cancel c ctx v s)
  unfolding on_cancel
  cancel-Adds none v s = tt
  cancel-Adds (some e) waiting s = ground arith
  cancel-Adds (some e) (received r) s = tt
  cancel-Adds (some e) (answered a) s = tt

  end-Adds : (x : Err) (ctx : Option Err) (s : GroupState V) → After (Adds 0 s) (on_end c x ctx s)
  unfolding on_end
  end-Adds x none s = ground arith
  end-Adds x (some y) s = tt

  step-Adds : (m : Move V) (s : GroupState V) → After (Adds (is_send i m) s) (step c m s)
  unfolding step
  step-Adds (send j r) s = send-Adds j r (get_elem? s.attempts j) s refl
  step-Adds (leave j) s = leave-Adds j (get_elem? s.attempts j) s refl
  step-Adds (tick elapsed snapshot) s = tick-Adds elapsed snapshot s.spawner s
  step-Adds stop s = stop-Adds s
  step-Adds receive s = receive-Adds s.results s.receiver s
  step-Adds load s = load-Adds s.receiver s
  step-Adds (cancel e) s = end-Adds e s.ctx_err s
  step-Adds see_cancel s = cancel-Adds s.ctx_err s.receiver s

  -- How often attempt `i` has sent in a schedule.
  pub sends : {s : GroupState V} → Reach c s → ℕ
  sends start = 0
  sends (later m r e) = is_send i m + sends r

  sends-counted : {s : GroupState V} (r : Reach c s) → sends r ≡ has_sent (get_elem? s.attempts i)
  unfolding sends initial
  sends-counted start = initial_counted i
  sends-counted (later {s} m r e) =
      let adds = After-some (Adds (is_send i m) s) e (step-Adds m s) in
      omega (arith, adds, sends-counted r)

has_sent-le : (p : Option Phase) → has_sent p ≤ 1
has_sent-le none = omega arith
has_sent-le (some running) = omega arith
has_sent-le (some sent) = omega arith
has_sent-le (some gone) = omega arith

module _ {V : Type 0} (c : GroupConfig) where
  -- In every state that a group can come to, however its goroutines interleave, the counters are those
  -- of the attempts, there are at most `MaxHedges` hedges, what the group has returned counts as a
  -- success exactly where its outcome is a success, and each attempt has sent once at most: once where
  -- it has got past its send, and never where it is still before it or was not launched.
  pub sends_once :
      {s : GroupState V} (r : Reach c s) (i : ℕ)
      → IsGroup c s × (sends c i r ≤ 1) × (sends c i r ≡ has_sent (get_elem? s.attempts i))
  sends_once {s} r i = (
    Reach-IsGroup c r,
    rw (sends-counted c i r) (has_sent-le (get_elem? s.attempts i)),
    sends-counted c i r,
  )

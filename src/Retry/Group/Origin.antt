-- ===== src/Retry/Group/Origin.antt =====
-- Where the result of a group comes from.
use recourse.Common.{
  ℕ, Bool, true, false, ◌≡◌, refl, ◌⊎◌, inl, inr, List, [], ◌∷◌, ◌++◌, Option, none, some, arith,
  if◌then◌else◌, get_elem?, ◌==◌, All, ◌&&◌,
}
use mathlib.Core.Path.{subst}
use recourse.Common.Int.{ℤ}
use recourse.Errors.{Err}
use recourse.Hedge.{LatencySnapshot}
use recourse.Retry.Full.{GroupResult, is_terminal}
use recourse.Retry.Primary.{is_success, Sent, answer_of, cancelled}
use recourse.Retry.Group.{
  Phase, running, sent, gone, Spawner, armed, unarmed, stopped, Receiver, waiting, received,
  answered, GroupState, send, leave, tick, stop, receive, load, cancel, see_cancel, GroupConfig,
  initial, launch_hedge, after_trigger, on_tick, on_stop, on_send, on_leave, after_receive,
  on_receive, on_load, on_cancel, on_end, step, Reach, start, later, hedge_state,
}
use recourse.Retry.Group.Invariant.{After, After-some}

module _ {V : Type 0} (c : GroupConfig) (P : Sent V → Type 0) where
  -- Every result that a schedule sends is such a result.
  abbrev pub Sends : {s : GroupState V} → Reach c s → Type 0
  Sends start = Unit
  Sends (later (send i r) reach e) = P r × Sends reach
  Sends (later (leave i) reach e) = Sends reach
  Sends (later (tick elapsed snapshot) reach e) = Sends reach
  Sends (later stop reach e) = Sends reach
  Sends (later receive reach e) = Sends reach
  Sends (later load reach e) = Sends reach
  Sends (later (cancel x) reach e) = Sends reach
  Sends (later see_cancel reach e) = Sends reach

  -- The answer of such a result, or that of the end of the context, whose error is given.
  abbrev pub HasAnswer : Option Err → GroupResult V → Type 0
  HasAnswer ctx g =
      ((r : Sent V) × (P r × (g ≡ answer_of r)))
      ⊎ ((e : Err) × ((ctx ≡ some e) × (g ≡ cancelled e)))

  abbrev Holds : Option Err → Receiver V → Type 0
  Holds ctx waiting = Unit
  Holds ctx (received r) = P r
  Holds ctx (answered g) = HasAnswer ctx g

  record IsOwned (s : GroupState V) : Type 0 where
    queued : All P s.results
    held : Holds s.ctx_err s.receiver

  All-append : (rs : List (Sent V)) (r : Sent V) → All P rs → P r → All P (rs ++ (r ∷ []))
  All-append [] r h p = (p, tt)
  All-append (x ∷ rs) r h p = (h.0, All-append rs r h.1 p)

  trigger-IsOwned :
      (answer : Bool × ℤ) (s : GroupState V) → IsOwned s → IsOwned (after_trigger c answer s)
  unfolding after_trigger launch_hedge
  trigger-IsOwned (true, next) s own = record { queued = own.queued; held = own.held }
  trigger-IsOwned (false, next) s own = record { queued = own.queued; held = own.held }

  tick-IsOwned :
      (elapsed : ℤ) (snapshot : LatencySnapshot) (sp : Spawner) (s : GroupState V)
      → IsOwned s
      → After IsOwned (on_tick c elapsed snapshot sp s)
  unfolding on_tick
  tick-IsOwned elapsed snapshot (armed d) s own =
      ground (arith, own, trigger-IsOwned (c.trigger (hedge_state c elapsed snapshot s)) s own)
  tick-IsOwned elapsed snapshot unarmed s own = tt
  tick-IsOwned elapsed snapshot stopped s own = tt

  stop-IsOwned : (s : GroupState V) → IsOwned s → After IsOwned (on_stop c s)
  unfolding on_stop
  stop-IsOwned s own = ground (arith, own)

  send-IsOwned :
      (i : ℕ) (r : Sent V) (p : Option Phase) (s : GroupState V)
      → P r
      → IsOwned s
      → After IsOwned (on_send c i r p s)
  unfolding on_send
  send-IsOwned i r none s q own = tt
  send-IsOwned i r (some running) s q own = ground (arith, own, All-append s.results r own.queued q)
  send-IsOwned i r (some sent) s q own = tt
  send-IsOwned i r (some gone) s q own = tt

  leave-IsOwned :
      (i : ℕ) (p : Option Phase) (s : GroupState V) → IsOwned s → After IsOwned (on_leave c i p s)
  unfolding on_leave
  leave-IsOwned i none s own = tt
  leave-IsOwned i (some running) s own = tt
  leave-IsOwned i (some sent) s own = record { queued = own.queued; held = own.held }
  leave-IsOwned i (some gone) s own = tt

  choice-Holds :
      (ctx : Option Err) (b : Bool) (x y : Receiver V)
      → Holds ctx x
      → Holds ctx y
      → Holds ctx (if b then x else y)
  choice-Holds ctx true x y h g = h
  choice-Holds ctx false x y h g = g

  after_receive-Holds : (ctx : Option Err) (r : Sent V) → P r → Holds ctx (after_receive c r)
  unfolding after_receive
  after_receive-Holds ctx r p =
      let wins : Holds ctx (answered (answer_of r)) = inl (r, (p, refl)) in
      choice-Holds ctx (is_success r.outcome.kind) (answered (answer_of r))
        (if c.hedge.cancel_on_first_terminal && is_terminal r.outcome.kind
          then answered (answer_of r)
          else received r)
        wins
        (choice-Holds ctx (c.hedge.cancel_on_first_terminal && is_terminal r.outcome.kind)
          (answered (answer_of r)) (received r) wins p)

  receive-IsOwned :
      (rs : List (Sent V)) (v : Receiver V) (s : GroupState V)
      → s.results ≡ rs
      → IsOwned s
      → After IsOwned (on_receive c v rs s)
  unfolding on_receive
  receive-IsOwned [] waiting s h own = tt
  receive-IsOwned (r ∷ rs) waiting s h own =
      let (p, ps) = subst (All P) h own.queued in
      record { queued = ps; held = after_receive-Holds s.ctx_err r p }
  receive-IsOwned rs (received r) s h own = tt
  receive-IsOwned rs (answered g) s h own = tt

  load-IsOwned :
      (v : Receiver V) (s : GroupState V)
      → s.receiver ≡ v
      → IsOwned s
      → After IsOwned (on_load c v s)
  unfolding on_load
  load-IsOwned waiting s h own = tt
  load-IsOwned (received r) s h own =
      let p : P r = subst (Holds s.ctx_err) h own.held in
      record {
        queued = own.queued;
        held =
            choice-Holds s.ctx_err (s.active == 0) (answered (answer_of r)) waiting
              (inl (r, (p, refl))) tt;
      }
  load-IsOwned (answered g) s h own = tt

  cancel-IsOwned :
      (ctx : Option Err) (v : Receiver V) (s : GroupState V)
      → s.ctx_err ≡ ctx
      → IsOwned s
      → After IsOwned (on_cancel c ctx v s)
  unfolding on_cancel
  cancel-IsOwned none v s h own = tt
  cancel-IsOwned (some e) waiting s h own = record {
    queued = own.queued;
    held = inr (e, (h, refl));
  }
  cancel-IsOwned (some e) (received r) s h own = tt
  cancel-IsOwned (some e) (answered g) s h own = tt

  -- The context ends: no answer is that of its end yet.
  ending-Holds : (v : Receiver V) (ctx : Option Err) → Holds none v → Holds ctx v
  ending-Holds waiting ctx h = tt
  ending-Holds (received r) ctx h = h
  ending-Holds (answered g) ctx (inl h) = inl h
  ending-Holds (answered g) ctx (inr (e, (h, k))) = cc

  end-IsOwned :
      (x : Err) (ctx : Option Err) (s : GroupState V)
      → s.ctx_err ≡ ctx
      → IsOwned s
      → After IsOwned (on_end c x ctx s)
  unfolding on_end
  end-IsOwned x none s h own = record {
    queued = own.queued;
    held = ending-Holds s.receiver (some x) (subst (λ o. Holds o s.receiver) h own.held);
  }
  end-IsOwned x (some y) s h own = tt

  reach-IsOwned : {s : GroupState V} (reach : Reach c s) → Sends reach → IsOwned s
  unfolding initial step
  reach-IsOwned start h = record { queued = tt; held = tt }
  reach-IsOwned (later {s} (send i r) reach e) h =
      After-some IsOwned e
        (send-IsOwned i r (get_elem? s.attempts i) s h.0 (reach-IsOwned reach h.1))
  reach-IsOwned (later {s} (leave i) reach e) h =
      After-some IsOwned e (leave-IsOwned i (get_elem? s.attempts i) s (reach-IsOwned reach h))
  reach-IsOwned (later {s} (tick elapsed snapshot) reach e) h =
      After-some IsOwned e (tick-IsOwned elapsed snapshot s.spawner s (reach-IsOwned reach h))
  reach-IsOwned (later {s} stop reach e) h =
      After-some IsOwned e (stop-IsOwned s (reach-IsOwned reach h))
  reach-IsOwned (later {s} receive reach e) h =
      After-some IsOwned e (receive-IsOwned s.results s.receiver s refl (reach-IsOwned reach h))
  reach-IsOwned (later {s} load reach e) h =
      After-some IsOwned e (load-IsOwned s.receiver s refl (reach-IsOwned reach h))
  reach-IsOwned (later {s} (cancel x) reach e) h =
      After-some IsOwned e (end-IsOwned x s.ctx_err s refl (reach-IsOwned reach h))
  reach-IsOwned (later {s} see_cancel reach e) h =
      After-some IsOwned e (cancel-IsOwned s.ctx_err s.receiver s refl (reach-IsOwned reach h))

  -- What a group has returned, however its goroutines interleave, is the answer of a result that one of
  -- its attempts has sent, or, only where its context has ended, the answer with the error that the
  -- context has ended with: where every result that is sent satisfies a predicate, so does the result
  -- that is answered.
  pub answered-HasAnswer :
      {s : GroupState V} (reach : Reach c s) (g : GroupResult V)
      → Sends reach
      → s.receiver ≡ answered g
      → HasAnswer s.ctx_err g
  answered-HasAnswer {s} reach g h e = subst (Holds s.ctx_err) e (reach-IsOwned reach h).held

-- ===== src/Retry/Full/Call.antt =====
-- A whole call on the full path tells the observer of its end once, and tells what it returns.
use recourse.Common.{
  ℕ, zero, suc, ◌≤◌, Bool, true, false, ◌≡◌, refl, ap, ◌∙◌, String, List, Option, none, some, arith,
  if◌then◌else◌, get_elem?,
}
use recourse.Common.Int.{ℤ, pos}
use recourse.Common.Dict.{insert, string_eq}
use recourse.Common.Float.{Float}
use recourse.Policy.{PolicyKey, EffectivePolicy}
use recourse.Errors.{Err, circuit_open}
use recourse.Circuit.{Breaker, allow, state_string}
use recourse.Circuit.{Decision as CircuitDecision}
use recourse.Circuit.Registry.{get}
use recourse.Observe.{Timeline}
use recourse.Retry.{Exit, returned, panicked, St, Env, Config, M, ◌>>=◌, effect, emit}
use recourse.Retry.Rules.{bind_rule}
use recourse.Retry.Resolve.{resolve_policy_with_attributes, ask_provider_full}
use recourse.Retry.Verdict.{ClassifierMeta, resolve_classifier}
use recourse.Retry.Fast.{rounds_of}
use recourse.Retry.Full.{
  Shared, Group, Result, Vars, refused, end_early, at_address, find_breaker, with_breaker, loop,
  run_rounds, after_classifier, with_classifier, probe_policy, after_allow, after_breaker,
  check_circuit, after_resolution, start_call, do_value_with_timeline, classifier_attributes,
  empty_timeline,
}
use recourse.Retry.Full.Report.{reports, IsTold, IsSilent, Told, early_tells, loop_tells}

rounds_of_pos : (n : ℤ) → 1 ≤ rounds_of n
unfolding rounds_of
rounds_of_pos n = ground arith

module _ {F V W B C : Type 0} ⦃fl : Float F⦄ (env : Env F V W B C) (cfg : Config B C)
    (sh : Shared W) (key : PolicyKey) where
  with_breaker_silent :
      {A : Type 0} (f : ℤ → Breaker → Breaker × A) (x : A) (a : ℕ) (s : St W)
      → (with_breaker sh f x a s).1.log ≡ s.log
  unfolding with_breaker
  with_breaker_silent f x a s = refl

  resolution_silent : (s : St W) → (resolve_policy_with_attributes env cfg key s).1.log ≡ s.log
  unfolding resolve_policy_with_attributes ask_provider_full
  resolution_silent s = ground arith

  module _ (group : EffectivePolicy F → C → ClassifierMeta → Group V W)
      (quiet : (pol : EffectivePolicy F) (c : C) (meta : ClassifierMeta)
        → IsSilent (group pol c meta))
      (start : ℤ) (v : V) (tl : Timeline) (e : Option Err) where
    loop_tells_pos :
        (pol : EffectivePolicy F) (c : C) (meta : ClassifierMeta) (cb : Option ℕ) (n : ℕ)
        (vars : Vars) (s : St W)
        → 1 ≤ n
        → Told v tl e s (loop env cfg sh key (group pol c meta) pol.retry cb n 0 vars s)
    loop_tells_pos pol c meta cb zero vars s h = ground (arith, h)
    loop_tells_pos pol c meta cb (suc n) vars s h =
        loop_tells env cfg sh key v tl e (group pol c meta) pol.retry cb n 0 vars s
          (quiet pol c meta)

    run_rounds_tells :
        (pol : EffectivePolicy F) (attrs : List (String × String)) (cb : Option ℕ) (c : C)
        (meta : ClassifierMeta) (s : St W)
        → Told v tl e s (run_rounds env cfg sh key group start pol attrs cb c meta s)
    unfolding run_rounds reports
    run_rounds_tells pol attrs cb c meta s r =
        let told =
          loop_tells_pos pol c meta cb (rounds_of pol.retry.max_attempts)
            (record {
              tl = empty_timeline env cfg sh key pol.id start attrs;
              last_err = none;
              backoff = pol.retry.initial_backoff;
              last_backoff = pos 0;
            })
            (emit (recourse.Retry.on_start key pol.id) s).1 (rounds_of_pos pol.retry.max_attempts)
            r in
        record { final = told.final; once = told.once; latest = told.latest }

    classifier_tells :
        (pol : EffectivePolicy F) (attrs : List (String × String)) (cb : Option ℕ) (c : Option C)
        (meta : ClassifierMeta) (x : Option Err) (s : St W)
        → Told v tl e s (after_classifier env cfg sh key group start pol attrs cb c meta x s)
    unfolding after_classifier
    classifier_tells pol attrs cb c meta (some x) s =
        early_tells env cfg sh key v tl e start pol.id
          (classifier_attributes env cfg sh key meta attrs) x s
    classifier_tells pol attrs cb (some c) meta none s = run_rounds_tells pol attrs cb c meta s
    classifier_tells pol attrs cb none meta none s = λ h. ground (arith, h)

    with_classifier_tells :
        (pol : EffectivePolicy F) (attrs : List (String × String)) (cb : Option ℕ) (s : St W)
        → Told v tl e s (with_classifier env cfg sh key group start pol attrs cb s)
    unfolding with_classifier
    with_classifier_tells pol attrs cb s =
        let (c, meta, x) = resolve_classifier cfg pol in classifier_tells pol attrs cb c meta x s

    choice_tells :
        (b : Bool) (s : St W) (m k : M W (Result V))
        → Told v tl e s (m s)
        → Told v tl e s (k s)
        → Told v tl e s ((if b then m else k) s)
    choice_tells true s m k x y = x
    choice_tells false s m k x y = y

    -- Only the log of a state counts.
    repack : {s s' t : St W} → reports s.log ≡ reports s'.log → IsTold tl e s t → IsTold tl e s' t
    repack same told = record {
      final = told.final;
      once = told.once ∙ ap suc same;
      latest = told.latest;
    }

    allow_tells :
        (pol : EffectivePolicy F) (attrs : List (String × String)) (a : ℕ) (d : CircuitDecision)
        (s : St W)
        → Told v tl e s (after_allow env cfg sh key group start pol attrs a d s)
    unfolding after_allow
    allow_tells pol attrs a d s =
        choice_tells d.allowed s
          (with_classifier env cfg sh key group start (probe_policy env cfg sh key d.state pol)
            attrs (some a))
          (end_early env cfg sh key start pol.id
            (insert "circuit_state" (state_string d.state) attrs)
            (circuit_open (state_string d.state) d.reason))
          (with_classifier_tells (probe_policy env cfg sh key d.state pol) attrs (some a) s)
          (early_tells env cfg sh key v tl e start pol.id
            (insert "circuit_state" (state_string d.state) attrs)
            (circuit_open (state_string d.state) d.reason) s)

    breaker_tells :
        (pol : EffectivePolicy F) (attrs : List (String × String)) (cb : Option ℕ) (s : St W)
        → Told v tl e s (after_breaker env cfg sh key group start pol attrs cb s)
    unfolding after_breaker with_breaker
    breaker_tells pol attrs none s = with_classifier_tells pol attrs none s
    breaker_tells pol attrs (some a) s =
        let (now, w1) = sh.now s.world in
        let r = sh.circuits w1 in
        let (r', d) = at_address (allow now) refused a (get_elem? r.store a) r in
        ground (
          arith,
          allow_tells pol attrs a d (record { world = sh.with_circuits r' w1; log = s.log }),
        )

    circuit_tells :
        (pol : EffectivePolicy F) (attrs : List (String × String)) (s : St W)
        → Told v tl e s (check_circuit env cfg sh key group start pol attrs s)
    unfolding check_circuit find_breaker
    circuit_tells pol attrs s =
        let (found, r) = get key pol.circuit (sh.circuits s.world) in
        choice_tells pol.circuit.enabled s
          (find_breaker sh key pol.circuit >>= after_breaker env cfg sh key group start pol attrs)
          (with_classifier env cfg sh key group start pol attrs none)
          (λ h. repack refl (
            breaker_tells pol attrs found
              (record { world = sh.with_circuits r s.world; log = s.log }) h))
          (with_classifier_tells pol attrs none s)

    resolution_tells :
        (answer : EffectivePolicy F × List (String × String) × Option Err) (s : St W)
        → Told v tl e s (after_resolution env cfg sh key group start answer s)
    unfolding after_resolution
    resolution_tells (pol, attrs, some x) s =
        early_tells env cfg sh key v tl e start pol.id attrs x s
    resolution_tells (pol, attrs, none) s = circuit_tells pol attrs s

    start_tells : (s : St W) → Told v tl e s (start_call env cfg sh key group start s)
    unfolding start_call
    start_tells s =
        let s1 = (resolve_policy_with_attributes env cfg key s).1 in
        bind_rule (Told v tl e s) (resolve_policy_with_attributes env cfg key)
          (after_resolution env cfg sh key group start) s
          (λ answer h. ground (arith, resolution_silent s, resolution_tells answer s1))
          (λ u h. ground arith)

  -- A call on the full path that returns has told the observer of exactly one end: a success where
  -- its error is nil and a failure otherwise, with the timeline that it returns, whose last error is
  -- the error that it returns. The group of a round tells of no end itself.
  pub do_value_with_timeline-IsTold :
      (group : EffectivePolicy F → C → ClassifierMeta → Group V W) (s : St W) (v : V)
      (tl : Timeline) (e : Option Err)
      → ((pol : EffectivePolicy F) (c : C) (meta : ClassifierMeta) → IsSilent (group pol c meta))
      → (do_value_with_timeline env cfg sh key group s).0 ≡ returned (v, tl, e)
      → IsTold tl e s (do_value_with_timeline env cfg sh key group s).1
  unfolding do_value_with_timeline
  do_value_with_timeline-IsTold group s v tl e quiet r =
      let (start, w) = env.clock s.world in
      let told = start_tells group quiet start v tl e (record { world = w; log = s.log }) r in
      record { final = told.final; once = told.once; latest = told.latest }

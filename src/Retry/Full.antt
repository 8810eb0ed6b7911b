-- ===== src/Retry/Full.antt =====
-- `doValueWithTimeline` of retry/executor.go: the retry loop with a circuit breaker around it, a
-- timeline and the observer's callbacks. A round of attempts is an argument, `group`, since
-- `doRetryGroup` runs concurrently: Retry/Primary has the one for a policy without hedges, Retry/Group
-- the steps of all.
pub mod Report
pub mod Call
pub mod Bounds
pub mod Refusal
pub mod Agreement
use recourse.Common.{
  ℕ, zero, suc, String, Bool, true, false, List, [], ◌∷◌, ◌++◌, Option, none, some, if◌then◌else◌,
  ◌==◌, ◌&&◌, ltb, get_elem?, set, not,
}
use recourse.Common.Int.{ℤ, pos, ltb_ℤ}
use recourse.Common.Text.{str_eq, is_empty}
use recourse.Common.Dict.{string_eq, insert}
use recourse.Common.Float.{Float}
use recourse.Policy.{PolicyKey, RetryPolicy, CircuitPolicy, EffectivePolicy}
use recourse.Errors.{Err, circuit_open}
use recourse.Classify.{OutcomeKind, success, retryable, non_retryable, abort, unknown, Outcome}
use recourse.Circuit.{
  State, closed, open_state, half_open, Breaker, new_breaker, state_string, allow, record_success,
  record_failure,
}
use recourse.Circuit.{Decision as CircuitDecision}
use recourse.Circuit.Registry.{Registry, get}
use recourse.Observe.{AttemptRecord, Timeline}
use recourse.Retry.{
  slept, on_start, on_success, on_failure, St, Exit, panicked, Env, Config, M, ◌>>=◌, ◌>>◌, pure,
  emit, effect,
}
use recourse.Retry.Backoff.{next_backoff, compute_sleep}
use recourse.Retry.Verdict.{ClassifierMeta, terminal_error, resolve_classifier}
use recourse.Retry.Resolve.{resolve_policy_with_attributes}
use recourse.Retry.Fast.{rounds_of}

-- The memory of circuit breakers that calls share, and `time.Now`, which the breakers read.
pub record Shared (W : Type 0) : Type 0 where
  pub now : W → ℤ × W
  pub circuits : W → Registry
  pub with_circuits : Registry → W → W

-- The results of `doRetryGroup`; the value is an `any`, `none` where that is nil.
pub record GroupResult (V : Type 0) : Type 0 where
  pub value : Option V
  pub err : Option Err
  pub outcome : Outcome
  pub won : Bool

-- A group, with the records of its attempts, for an attempt index and the backoff before it.
abbrev pub Group : Type 0 → Type 0 → Type 0
Group V W = ℕ → ℤ → M W (GroupResult V × List AttemptRecord)

-- What a call returns.
abbrev pub Result : Type 0 → Type 0
Result V = V × Timeline × Option Err

-- The variables of the loop: `tl` without its end, `lastErr`, `backoff`, `lastBackoff`. The variable
-- `last` of the code is never assigned, so a failure returns the zero value.
pub record Vars : Type 0 where
  pub tl : Timeline
  pub last_err : Option Err
  pub backoff : ℤ
  pub last_backoff : ℤ

-- How a round ends.
pub data Turn (V : Type 0) : Type 0 where
  ended : Result V → Turn V
  next : Vars → Turn V

abbrev pub is_abort : OutcomeKind → Bool
is_abort abort = true
is_abort _ = false

-- `isTerminal`.
abbrev pub is_terminal : OutcomeKind → Bool
is_terminal abort = true
is_terminal non_retryable = true
is_terminal _ = false

-- `terr = prevErr` in place of a denial by the budget, after the first attempt.
unfoldable pub prefer_previous : ℕ → Option Err → Outcome → Err → Err
prefer_previous attempt none out terr = terr
prefer_previous attempt (some prev) out terr =
    if ltb 0 attempt && str_eq out.reason "budget_denied" then prev else terr

-- A method call on the breaker at an address of the store; `x` where the address is out of range,
-- which an address that `Get` returned is not.
unfoldable pub at_address :
    {A : Type 0} → (Breaker → Breaker × A) → A → ℕ → Option Breaker → Registry → Registry × A
at_address f x a none r = (r, x)
at_address f x a (some cb) r =
    let (cb', y) = f cb in (record { breakers = r.breakers; store = set r.store a cb' }, y)

module _ {W : Type 0} (sh : Shared W) where
  -- `exec.circuits.Get(key, config)`.
  unfoldable pub find_breaker : PolicyKey → CircuitPolicy → M W (Option ℕ)
  find_breaker key config =
      effect (λ w. let (found, r) = get key config (sh.circuits w) in (found, sh.with_circuits r w))

  -- A method of the breaker at an address, with the time that it reads.
  unfoldable pub with_breaker : {A : Type 0} → (ℤ → Breaker → Breaker × A) → A → ℕ → M W A
  unfolding at_address
  with_breaker f x a = effect (λ w.
      let (now, w1) = sh.now w in
      let r = sh.circuits w1 in
      let (r', y) = at_address (f now) x a (get_elem? r.store a) r in (y, sh.with_circuits r' w1))

  -- `if cb != nil { cb.RecordSuccess(ctx) }`, and the same for a failure.
  unfoldable pub report : (ℤ → Breaker → Breaker) → Option ℕ → M W (Unit {0})
  report f none = pure tt
  report f (some a) = with_breaker (λ now cb. (f now cb, tt)) tt a

-- The answer of `Allow` at an address that is out of range.
abbrev pub refused : CircuitDecision
refused = record { allowed = false; state = closed; reason = "" }

module _ {F V W B C : Type 0} ⦃fl : Float F⦄ (env : Env F V W B C) (cfg : Config B C)
    (sh : Shared W) (key : PolicyKey) where
  -- The end of a call: the clock, the last fields of the timeline, and the observer.
  unfoldable pub finish_failure : Timeline → Option Err → M W (Result V)
  finish_failure tl err = do
    end ← effect env.clock
    let final = record tl { end_time = end; final_err = err }
    emit (on_failure key final)
    pure (env.zero_value, final, err)

  unfoldable pub finish_success : Timeline → M W Timeline
  finish_success tl = do
    end ← effect env.clock
    let final = record tl { end_time = end; final_err = none }
    emit (on_success key final)
    pure final

  abbrev pub empty_timeline : String → ℤ → List (String × String) → Timeline
  empty_timeline policy_id start attrs = record {
    key = key;
    policy_id = policy_id;
    start = start;
    end_time = pos 0;
    attributes = attrs;
    attempts = [];
    final_err = none;
  }

  -- A call that ends before its first attempt.
  unfoldable pub end_early : ℤ → String → List (String × String) → Err → M W (Result V)
  end_early start policy_id attrs err = do
    end ← effect env.clock
    let final = record (empty_timeline policy_id start attrs) {
      end_time = end;
      final_err = some err;
    }
    emit (on_start key policy_id)
    emit (on_failure key final)
    pure (env.zero_value, final, some err)

  -- `valAny.(T)`, which panics on the nil interface.
  unfoldable pub unboxed : Option V → Timeline → M W (Result V)
  unboxed none tl = λ s. (panicked "interface conversion: interface is nil", s)
  unboxed (some v) tl = pure (v, tl, none)

  -- After a success of the group.
  unfoldable pub end_success : Option ℕ → Vars → GroupResult V → M W (Turn V)
  end_success cb vars res = do
    report sh record_success cb
    final ← finish_success vars.tl
    result ← unboxed res.value final
    pure (ended result)

  -- `if cb != nil && outcome.Kind != OutcomeAbort { cb.RecordFailure(ctx) }`
  unfoldable pub report_failed : Option ℕ → OutcomeKind → M W (Unit {0})
  report_failed cb kind = if is_abort kind then pure tt else report sh record_failure cb

  -- A terminal failure; `prev` is the error of the round before.
  unfoldable pub end_terminal : Option ℕ → ℕ → Option Err → Vars → GroupResult V → M W (Turn V)
  end_terminal cb attempt prev vars res = do
    report_failed cb res.outcome.kind
    terr ← terminal_error env res.err res.outcome
    result ← finish_failure vars.tl (some (prefer_previous attempt prev res.outcome terr))
    pure (ended result)

  -- The failure of the last round.
  unfoldable pub end_exhausted : Option ℕ → Vars → GroupResult V → M W (Turn V)
  end_exhausted cb vars res = do
    report_failed cb res.outcome.kind
    terr ← terminal_error env res.err res.outcome
    result ← finish_failure vars.tl (some terr)
    pure (ended result)

  -- After the sleep.
  unfoldable pub after_sleep : RetryPolicy F → Vars → Option Err → M W (Turn V)
  after_sleep pol vars (some e) = finish_failure vars.tl (some e) >>= λ result. pure (ended result)
  after_sleep pol vars none = pure (
      next (record vars {
        backoff = next_backoff vars.backoff pol.backoff_multiplier pol.max_backoff;
      }))

  unfoldable pub sleep_between : RetryPolicy F → Vars → Outcome → M W (Turn V)
  sleep_between pol vars out = do
    sleep_for ← compute_sleep env vars.backoff pol out
    serr ←
        (if ltb_ℤ (pos 0) sleep_for
          then (emit (slept sleep_for) >> effect (env.sleep sleep_for))
          else pure none)
    after_sleep pol (record vars { last_backoff = sleep_for }) serr

  -- A failure of the group; `last` says that this is the last round.
  unfoldable pub after_failure :
      RetryPolicy F → Option ℕ → Bool → ℕ → Option Err → Vars → GroupResult V → M W (Turn V)
  after_failure pol cb last attempt prev vars res =
      if is_terminal res.outcome.kind
      then end_terminal cb attempt prev vars res
      else if last
      then end_exhausted cb vars res
      else sleep_between pol vars res.outcome

  -- After the group, whose records are those of the attempts that it has made.
  unfoldable pub after_group :
      RetryPolicy F → Option ℕ → Bool → ℕ → Vars → GroupResult V × List AttemptRecord → M W (Turn V)
  after_group pol cb last attempt vars (res, recs) =
      let seen = record vars { tl = record (vars.tl) { attempts = vars.tl.attempts ++ recs } } in
      if res.won
      then end_success cb seen res
      else after_failure pol cb last attempt vars.last_err (record seen { last_err = res.err }) res

  unfoldable pub after_context :
      Group V W → RetryPolicy F → Option ℕ → Bool → ℕ → Vars → Option Err → M W (Turn V)
  after_context group pol cb last attempt vars (some e) =
      finish_failure vars.tl (some e) >>= λ result. pure (ended result)
  after_context group pol cb last attempt vars none =
      group attempt vars.last_backoff >>= after_group pol cb last attempt vars

  -- One round.
  unfoldable pub round : Group V W → RetryPolicy F → Option ℕ → Bool → ℕ → Vars → M W (Turn V)
  round group pol cb last attempt vars =
      effect env.ctx_err >>= after_context group pol cb last attempt vars

  unfoldable pub after_round : (Vars → M W (Result V)) → Turn V → M W (Result V)
  after_round rest (ended result) = pure result
  after_round rest (next vars) = rest vars

  -- The loop, by the number of rounds that are left.
  unfoldable pub loop : Group V W → RetryPolicy F → Option ℕ → ℕ → ℕ → Vars → M W (Result V)
  loop group pol cb zero attempt vars = finish_failure vars.tl vars.last_err
  loop group pol cb (suc left) attempt vars =
      round group pol cb (left == 0) attempt vars
      >>= after_round (loop group pol cb left (suc attempt))

  -- From the start of the observer to the end.
  unfoldable pub run_rounds :
      (EffectivePolicy F → C → ClassifierMeta → Group V W)
      → ℤ
      → EffectivePolicy F
      → List (String × String)
      → Option ℕ
      → C
      → ClassifierMeta
      → M W (Result V)
  run_rounds group start pol attrs cb classifier meta = do
    emit (on_start key pol.id)
    loop (group pol classifier meta) pol.retry cb (rounds_of pol.retry.max_attempts) 0 (record {
      tl = empty_timeline pol.id start attrs;
      last_err = none;
      backoff = pol.retry.initial_backoff;
      last_backoff = pos 0;
    })

  -- The attributes of a call whose classifier is not found.
  unfoldable pub classifier_attributes :
      ClassifierMeta → List (String × String) → List (String × String)
  classifier_attributes meta attrs =
      let named =
        if is_empty meta.requested then attrs else insert "classifier_name" meta.requested attrs in
      insert "classifier_error" "classifier_not_found" named

  -- After `resolveClassifier`, which gives a classifier or an error; a nil classifier would panic at
  -- its first call.
  unfoldable pub after_classifier :
      (EffectivePolicy F → C → ClassifierMeta → Group V W)
      → ℤ
      → EffectivePolicy F
      → List (String × String)
      → Option ℕ
      → Option C
      → ClassifierMeta
      → Option Err
      → M W (Result V)
  after_classifier group start pol attrs cb c meta (some e) =
      end_early start pol.id (classifier_attributes meta attrs) e
  after_classifier group start pol attrs cb (some c) meta none =
      run_rounds group start pol attrs cb c meta
  after_classifier group start pol attrs cb none meta none = λ s. (panicked "nil classifier", s)

  unfoldable pub with_classifier :
      (EffectivePolicy F → C → ClassifierMeta → Group V W)
      → ℤ
      → EffectivePolicy F
      → List (String × String)
      → Option ℕ
      → M W (Result V)
  with_classifier group start pol attrs cb =
      let (c, meta, e) = resolve_classifier cfg pol in
      after_classifier group start pol attrs cb c meta e

  -- `if decision.State == circuit.StateHalfOpen { pol.Hedge.Enabled = false }`
  unfoldable pub probe_policy : State → EffectivePolicy F → EffectivePolicy F
  probe_policy half_open pol = record pol { hedge = record (pol.hedge) { enabled = false } }
  probe_policy _ pol = pol

  -- After the breaker's decision.
  unfoldable pub after_allow :
      (EffectivePolicy F → C → ClassifierMeta → Group V W)
      → ℤ
      → EffectivePolicy F
      → List (String × String)
      → ℕ
      → CircuitDecision
      → M W (Result V)
  after_allow group start pol attrs a d =
      if d.allowed
      then with_classifier group start (probe_policy d.state pol) attrs (some a)
      else end_early start pol.id (insert "circuit_state" (state_string d.state) attrs)
          (circuit_open (state_string d.state) d.reason)

  unfoldable pub after_breaker :
      (EffectivePolicy F → C → ClassifierMeta → Group V W)
      → ℤ
      → EffectivePolicy F
      → List (String × String)
      → Option ℕ
      → M W (Result V)
  after_breaker group start pol attrs none = with_classifier group start pol attrs none
  after_breaker group start pol attrs (some a) =
      with_breaker sh allow refused a >>= after_allow group start pol attrs a

  -- The check of the circuit breaker.
  unfoldable pub check_circuit :
      (EffectivePolicy F → C → ClassifierMeta → Group V W)
      → ℤ
      → EffectivePolicy F
      → List (String × String)
      → M W (Result V)
  check_circuit group start pol attrs =
      if pol.circuit.enabled
      then find_breaker sh key pol.circuit >>= after_breaker group start pol attrs
      else with_classifier group start pol attrs none

  unfoldable pub after_resolution :
      (EffectivePolicy F → C → ClassifierMeta → Group V W)
      → ℤ
      → EffectivePolicy F × List (String × String) × Option Err
      → M W (Result V)
  after_resolution group start (pol, attrs, some e) = end_early start pol.id attrs e
  after_resolution group start (pol, attrs, none) = check_circuit group start pol attrs

  unfoldable pub start_call :
      (EffectivePolicy F → C → ClassifierMeta → Group V W) → ℤ → M W (Result V)
  start_call group start =
      resolve_policy_with_attributes env cfg key >>= after_resolution group start

  -- `doValueWithTimeline`.
  unfoldable pub do_value_with_timeline :
      (EffectivePolicy F → C → ClassifierMeta → Group V W) → M W (Result V)
  do_value_with_timeline group = effect env.clock >>= start_call group

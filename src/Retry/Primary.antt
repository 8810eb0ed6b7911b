-- ===== src/Retry/Primary.antt =====
-- `doRetryGroup` of retry/group.go for a policy without hedges: one attempt. An argument `ending` tells,
-- from the world after the attempt, which of the two ends the group comes to: `none` is a schedule in
-- which the receiver takes the result and reads the count of active attempts after the goroutine's
-- deferred calls, or ends the group at once; with `some e` the receiver comes to the end of the context
-- with error `e`, before it takes the result or after it has read the count too early (see Retry/Group
-- for all schedules, and for the one in which the context never ends and the group hangs). An
-- attempt whose context ends while it runs is taken to run to its end first. A panic in the goroutine ends the program, a panic here.
pub mod Silent
pub mod Counts
use recourse.Common.{ℕ, String, Bool, true, false, List, [], ◌∷◌, Option, none, some, if◌then◌else◌}
use recourse.Common.Int.{ℤ, pos, ◌-ℤ◌}
use recourse.Common.Float.{Float}
use recourse.Policy.{PolicyKey, BudgetRef, EffectivePolicy}
use recourse.Errors.{Err, new}
use recourse.Classify.{OutcomeKind, unknown, success, abort, Outcome, outcome}
use recourse.Budget.{AttemptKind, kind_retry, kind_hedge, Decision}
use recourse.Observe.{AttemptRecord}
use recourse.Retry.{
  op_called, observed_latency, on_attempt, on_hedge_spawn, St, Env, Config, M, ◌>>=◌, ◌>>◌, pure,
  emit, effect, risky,
}
use recourse.Retry.Allow.{allow_attempt}
use recourse.Retry.Verdict.{ClassifierMeta, annotate_classifier_fallback, classify_with_recovery}
use recourse.Retry.Fast.{release_after}
use recourse.Retry.Full.{GroupResult, Group}

-- The arguments of `launch`: the index, and whether the attempt is a hedge.
pub record Launch : Type 0 where
  pub idx : ℕ
  pub is_hedge : Bool

abbrev pub primary : Launch
primary = record { idx = 0; is_hedge = false }

abbrev pub is_success : OutcomeKind → Bool
is_success success = true
is_success _ = false

-- The fields of `groupResult` that the receiver reads.
pub record Sent (V : Type 0) : Type 0 where
  pub value : Option V
  pub err : Option Err
  pub outcome : Outcome

-- What the group returns of the result that ends it.
abbrev pub answer_of : {V : Type 0} → Sent V → GroupResult V
answer_of r = record {
  value = r.value;
  err = if is_success r.outcome.kind then none else r.err;
  outcome = r.outcome;
  won = is_success r.outcome.kind;
}

-- What it returns at the end of its context.
abbrev pub cancelled : {V : Type 0} → Err → GroupResult V
cancelled e = record {
  value = none;
  err = some e;
  outcome = outcome abort "context_canceled";
  won = false;
}

module _ {F V W B C : Type 0} ⦃fl : Float F⦄ (env : Env F V W B C) (cfg : Config B C)
    (is_nil : V → Bool) (key : PolicyKey) (pol : EffectivePolicy F) where
  -- `any(val)`: `is_nil` says which values of the operation's type are nil interfaces.
  unfoldable pub boxed : V → Option V
  boxed v = if is_nil v then none else some v

  -- `recordAttempt`, before the call is done: the observer and the latency tracker.
  unfoldable pub record_attempt : AttemptRecord → M W (Unit {0})
  record_attempt rec = do
    emit (on_attempt key rec)
    emit (observed_latency key (rec.end_time -ℤ rec.start_time))

  -- The budget of an attempt.
  unfoldable pub budget_of : Launch → BudgetRef
  budget_of l = if l.is_hedge then pol.hedge.budget else pol.retry.budget

  unfoldable pub kind_of : Launch → AttemptKind
  kind_of l = if l.is_hedge then kind_hedge else kind_retry

  -- The backoff that the record of an attempt shows.
  unfoldable pub shown_backoff : Launch → ℤ → ℤ
  shown_backoff l backoff = if l.is_hedge then pos 0 else backoff

  -- The result that an attempt sends where its budget refuses.
  unfoldable pub denied : Launch → ℕ → ℤ → ℤ → Decision → M W (GroupResult V × List AttemptRecord)
  denied l attempt backoff start d = do
    end ← effect env.clock
    let rec : AttemptRecord = record {
      attempt = attempt;
      start_time = start;
      end_time = end;
      is_hedge = l.is_hedge;
      hedge_index = l.idx;
      outcome = outcome abort d.reason;
      err = none;
      backoff = shown_backoff l backoff;
      budget_allowed = false;
      budget_reason = d.reason;
    }
    record_attempt rec
    later ← effect env.clock
    pure (
      answer_of
          (record { value = none; err = some (new d.reason); outcome = outcome abort d.reason }),
      rec ∷ [],
    )

  -- From the classification to the end of an attempt. The error of a panic in the classifier goes
  -- into the field `panicErr`, which no code reads.
  unfoldable pub after_verdict :
      Launch
      → ℕ
      → ℤ
      → ClassifierMeta
      → ℤ
      → ℤ
      → Decision
      → V × Option Err
      → Outcome × Option Err
      → M W (GroupResult V × List AttemptRecord)
  after_verdict l attempt backoff meta start end d (val, err) (out, panic_err) = do
    let shown = annotate_classifier_fallback meta out
    let rec : AttemptRecord = record {
      attempt = attempt;
      start_time = start;
      end_time = end;
      is_hedge = l.is_hedge;
      hedge_index = l.idx;
      outcome = shown;
      err = err;
      backoff = shown_backoff l backoff;
      budget_allowed = true;
      budget_reason = d.reason;
    }
    record_attempt rec
    pure (answer_of (record { value = boxed val; err = err; outcome = shown }), rec ∷ [])

  -- After the operation has returned.
  unfoldable pub after_op :
      Launch
      → ℕ
      → ℤ
      → C
      → ClassifierMeta
      → ℤ
      → Decision
      → V × Option Err
      → M W (GroupResult V × List AttemptRecord)
  after_op l attempt backoff c meta start d result = effect env.clock >>= λ end.
      classify_with_recovery env cfg.recover_panics c result.0 result.1 key
      >>= after_verdict l attempt backoff meta start end d result

  -- `e.observer.OnHedgeSpawn(…)`, for a hedge.
  unfoldable pub announce : Launch → ℕ → M W (Unit {0})
  announce l attempt =
      if l.is_hedge
      then emit (
          on_hedge_spawn key (record {
            attempt = attempt;
            start_time = pos 0;
            end_time = pos 0;
            is_hedge = true;
            hedge_index = l.idx;
            outcome = outcome unknown "";
            err = none;
            backoff = pos 0;
            budget_allowed = false;
            budget_reason = "";
          }))
      else pure tt

  -- The attempt after the budget has allowed it.
  unfoldable pub run_allowed :
      Launch → ℕ → ℤ → C → ClassifierMeta → ℤ → Decision → M W (GroupResult V × List AttemptRecord)
  run_allowed l attempt backoff c meta start d = release_after env cfg key d.release (
      announce l attempt
      >> emit (op_called attempt)
      >> risky (env.run_op attempt)
      >>= after_op l attempt backoff c meta start d)

  unfoldable pub after_decision :
      Launch → ℕ → ℤ → C → ClassifierMeta → ℤ → Decision → M W (GroupResult V × List AttemptRecord)
  after_decision l attempt backoff c meta start d =
      if d.allowed
      then run_allowed l attempt backoff c meta start d
      else denied l attempt backoff start d

  -- The goroutine of `launch`.
  unfoldable pub run_launched :
      Launch → ℕ → ℤ → C → ClassifierMeta → M W (GroupResult V × List AttemptRecord)
  run_launched l attempt backoff c meta = effect env.clock >>= λ start.
      allow_attempt env cfg key attempt (kind_of l) (budget_of l)
      >>= after_decision l attempt backoff c meta start

  -- What the receiver makes of the result: `ending` is the error of the context, where the receiver
  -- comes to `case <-ctx.Done()` before it returns the result.
  unfoldable pub after_launched :
      Option Err → GroupResult V × List AttemptRecord → GroupResult V × List AttemptRecord
  after_launched none answer = answer
  after_launched (some e) (result, recs) = (cancelled e, recs)

  -- `doRetryGroup` for a policy without hedges, in the schedules that `ending` gives.
  unfoldable pub primary_group : (ℕ → W → Option Err × W) → C → ClassifierMeta → Group V W
  primary_group ending c meta attempt backoff =
      run_launched primary attempt backoff c meta >>= λ answer.
      effect (ending attempt) >>= λ e. pure (after_launched e answer)

-- ===== src/Retry/Fast.antt =====
-- `doValueFast` of retry/executor.go: the retry loop without a timeline. One round of the loop either
-- ends the call or hands the next round its variables.
pub mod Counts
pub mod Bounds
pub mod Total
pub mod Honest
use recourse.Common.{
  ℕ, zero, suc, ◌-◌, ◌+◌, String, Bool, true, false, List, [], ◌∷◌, Option, none, some,
  if◌then◌else◌, ◌==◌,
}
use recourse.Common.Int.{ℤ, pos, pos_part, leb_ℤ, ltb_ℤ, ◌-ℤ◌}
use recourse.Common.Float.{Float}
use recourse.Policy.{PolicyKey, RetryPolicy, EffectivePolicy}
use recourse.Errors.{Err, new, sentinel, hedging_requires_timeline}
use recourse.Classify.{OutcomeKind, success, retryable, non_retryable, abort, unknown, Outcome}
use recourse.Budget.{AttemptKind, kind_retry, Decision}
use recourse.Retry.{
  op_called, slept, released, observed_latency, St, Env, Config, M, ◌>>=◌, ◌>>◌, pure, emit, effect,
  risky, deferring,
}
use recourse.Retry.Allow.{allow_attempt}
use recourse.Retry.Backoff.{next_backoff, compute_sleep}
use recourse.Retry.Verdict.{classify_with_recovery, terminal_error, resolve_classifier}
use recourse.Retry.Resolve.{resolve_policy_fast}

-- How a round ends: `return val, err`, or the variables `last`, `lastErr` and `backoff` of the next.
pub data Round (V : Type 0) : Type 0 where
  done : V → Option Err → Round V
  again : V → Option Err → ℤ → Round V

-- `if maxAttempts <= 0 { maxAttempts = 1 }`
unfoldable pub rounds_of : ℤ → ℕ
rounds_of n = if leb_ℤ n (pos 0) then 1 else pos_part n

module _ {F V W B C : Type 0} ⦃fl : Float F⦄ (env : Env F V W B C) (cfg : Config B C)
    (key : PolicyKey) where
  -- `defer release()`, if there is a function to release.
  unfoldable pub release_after : {A : Type 0} → Option ℕ → M W A → M W A
  release_after none m = m
  release_after (some r) m =
      deferring (λ s. record { world = env.release r s.world; log = released r ∷ s.log }) m

  -- The inner function of a round: the operation between two clock readings, with the release and
  -- the latency sample.
  unfoldable pub run_attempt : ℕ → Option ℕ → M W (V × Option Err)
  unfolding release_after ◌-ℤ◌
  run_attempt attempt release = release_after release (do
    start ← effect env.clock
    emit (op_called attempt)
    result ← risky (env.run_op attempt)
    end ← effect env.clock
    emit (observed_latency key (end -ℤ start))
    pure result)

  -- A retryable failure with rounds left: the sleep, and the next backoff.
  unfoldable pub wait_round : RetryPolicy F → ℤ → V → Option Err → Outcome → M W (Round V)
  wait_round pol backoff val err out = do
    sleep_for ← compute_sleep env backoff pol out
    serr ←
        (if ltb_ℤ (pos 0) sleep_for
          then (emit (slept sleep_for) >> effect (env.sleep sleep_for))
          else pure none)
    pure (elim serr [
      | some e ↦ done val (some e)
      | none ↦ again val err (next_backoff backoff pol.backoff_multiplier pol.max_backoff)
    ])

  unfoldable pub stop_round : V → Option Err → Outcome → M W (Round V)
  stop_round val err out = do e ← terminal_error env err out; pure (done val (some e))

  -- The `switch` on the outcome; `last` says that this is the last round.
  unfoldable pub judge : RetryPolicy F → Bool → ℤ → V → Option Err → Outcome → M W (Round V)
  unfolding stop_round wait_round
  judge pol last backoff val err out = elim out.kind [
    | success ↦ pure (done val none)
    | retryable ↦ if last then stop_round val err out else wait_round pol backoff val err out
    | non_retryable ↦ stop_round val err out
    | abort ↦ stop_round val err out
    | unknown ↦ stop_round val err out
  ]

  -- After the classification: a panic in the classifier ends the call.
  unfoldable pub after_verdict :
      RetryPolicy F → Bool → ℤ → V × Option Err → Outcome × Option Err → M W (Round V)
  after_verdict pol last backoff (val, err) (out, some e) = pure (done val (some e))
  after_verdict pol last backoff (val, err) (out, none) = judge pol last backoff val err out

  unfoldable pub after_result : RetryPolicy F → C → Bool → ℤ → V × Option Err → M W (Round V)
  after_result pol classifier last backoff result =
      classify_with_recovery env cfg.recover_panics classifier result.0 result.1 key
      >>= after_verdict pol last backoff result

  -- After the budget's decision.
  unfoldable pub after_decision : RetryPolicy F → C → Bool → ℕ → ℤ → V → Decision → M W (Round V)
  after_decision pol classifier last attempt backoff val decision =
      if decision.allowed
      then run_attempt attempt decision.release >>= after_result pol classifier last backoff
      else pure (done val (some (new decision.reason)))

  unfoldable pub after_context : RetryPolicy F → C → Bool → ℕ → ℤ → V → Option Err → M W (Round V)
  after_context pol classifier last attempt backoff val (some e) = pure (done val (some e))
  after_context pol classifier last attempt backoff val none =
      allow_attempt env cfg key attempt kind_retry pol.budget
      >>= after_decision pol classifier last attempt backoff val

  -- One round of the loop.
  unfoldable pub round : RetryPolicy F → C → Bool → ℕ → ℤ → V → M W (Round V)
  unfolding after_context
  round pol classifier last attempt backoff val =
      effect env.ctx_err >>= after_context pol classifier last attempt backoff val

  -- The loop, by the number of rounds that are left; what follows a round takes the rest of the loop.
  unfoldable pub after_round :
      (V → Option Err → ℤ → M W (V × Option Err)) → Round V → M W (V × Option Err)
  after_round rest (done v e) = pure (v, e)
  after_round rest (again v e b) = rest v e b

  unfoldable pub loop : RetryPolicy F → C → ℕ → ℕ → V → Option Err → ℤ → M W (V × Option Err)
  loop pol classifier zero attempt val err backoff = pure (val, err)
  loop pol classifier (suc left) attempt val err backoff =
      round pol classifier (left == 0) attempt backoff val
      >>= after_round (loop pol classifier left (suc attempt))

  pub run_policy : EffectivePolicy F → Option C → Option Err → M W (V × Option Err)
  run_policy pol none err = pure (env.zero_value, err)
  run_policy pol (some classifier) (some e) = pure (env.zero_value, some e)
  run_policy pol (some classifier) none =
      loop pol.retry classifier (rounds_of pol.retry.max_attempts) 0 env.zero_value none
        pol.retry.initial_backoff

  -- What follows the resolution of the policy.
  pub fast_with : EffectivePolicy F → Option Err → M W (V × Option Err)
  fast_with pol (some e) = pure (env.zero_value, some e)
  fast_with pol none =
      if pol.hedge.enabled
      then pure (env.zero_value, some (sentinel hedging_requires_timeline))
      else if pol.circuit.enabled
      then pure (env.zero_value, some (sentinel hedging_requires_timeline))
      else (let resolved = resolve_classifier cfg pol in run_policy pol resolved.0 resolved.2)

  pub after_policy : EffectivePolicy F × Option Err → M W (V × Option Err)
  after_policy (pol, err) = fast_with pol err

  -- `doValueFast`.
  unfoldable pub do_value_fast : M W (V × Option Err)
  do_value_fast = resolve_policy_fast env cfg key >>= after_policy

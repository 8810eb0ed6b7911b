-- ===== src/Retry/Fast/Honest.antt =====
-- When the loop of `doValueFast` reports success: only after a classifier has.
use recourse.Common.{
  ℕ, zero, suc, ◌==◌, Bool, false, ◌≡◌, ◌∙◌, ap, List, [], ◌∷◌, Option, none, some, arith,
  Bool-cases, inl, inr,
}
use recourse.Common.Int.{ℤ}
use recourse.Common.Float.{Float}
use recourse.Policy.{PolicyKey, RetryPolicy}
use recourse.Errors.{Err}
use recourse.Classify.{OutcomeKind, success, Outcome}
use recourse.Budget.{Decision, kind_retry}
use recourse.Retry.{Event, classified, Exit, returned, St, Env, Config, M, effect}
use recourse.Retry.Rules.{bind_rule}
use recourse.Retry.Allow.{allow_attempt}
use recourse.Retry.Verdict.{classify_with_recovery, terminal_error}
use recourse.Retry.Fast.{
  Round, done, again, run_attempt, stop_round, wait_round, judge, after_verdict, after_result,
  after_decision, after_context, round, after_round, loop,
}

-- The latest classification in a log.
unfoldable pub last_kind : List Event → Option OutcomeKind
last_kind [] = none
last_kind (classified k ∷ l) = some k
last_kind (_ ∷ l) = last_kind l

-- A round that ends the call without an error has just classified a success, and a round that asks
-- for another is not the last.
abbrev IsHonest : {V W : Type 0} → Bool → V → Option Err → ℤ → Exit (Round V) × St W → Type 0
IsHonest last v e b r =
    (r.0 ≡ returned (done v none) → last_kind r.1.log ≡ some success)
    × (r.0 ≡ returned (again v e b) → last ≡ false)

module _ {F V W B C : Type 0} ⦃fl : Float F⦄ (env : Env F V W B C) (cfg : Config B C)
    (key : PolicyKey) (v : V) (e : Option Err) (b : ℤ) where
  stop-IsHonest :
      (last : Bool) (val : V) (err : Option Err) (out : Outcome) (s : St W)
      → IsHonest last v e b (stop_round env cfg key val err out s)
  unfolding stop_round terminal_error
  stop-IsHonest last val err out s = ground arith

  wait-IsHonest :
      (pol : RetryPolicy F) (backoff : ℤ) (val : V) (err : Option Err) (out : Outcome) (s : St W)
      → IsHonest false v e b (wait_round env cfg key pol backoff val err out s)
  unfolding wait_round
  wait-IsHonest pol backoff val err out s = ground arith

  judge-IsHonest :
      (pol : RetryPolicy F) (last : Bool) (backoff : ℤ) (val : V) (err : Option Err) (out : Outcome)
      (s : St W)
      → last_kind s.log ≡ some out.kind
      → IsHonest last v e b (judge env cfg key pol last backoff val err out s)
  unfolding judge
  judge-IsHonest pol last backoff val err out s h =
      ground (arith, stop-IsHonest last val err out s, wait-IsHonest pol backoff val err out s)

  verdict-IsHonest :
      (pol : RetryPolicy F) (last : Bool) (backoff : ℤ) (result : V × Option Err)
      (verdict : Outcome × Option Err) (s : St W)
      → (verdict.1 ≡ none → last_kind s.log ≡ some verdict.0.kind)
      → IsHonest last v e b (after_verdict env cfg key pol last backoff result verdict s)
  unfolding after_verdict
  verdict-IsHonest pol last backoff (val, err) (out, some x) s h = ground arith
  verdict-IsHonest pol last backoff (val, err) (out, none) s h =
      judge-IsHonest pol last backoff val err out s (h (λ i. none))

  -- A verdict without a panic is the latest classification.
  classify_logs :
      (c : C) (val : V) (err : Option Err) (verdict : Outcome × Option Err) (s : St W)
      → (classify_with_recovery env cfg.recover_panics c val err key s).0 ≡ returned verdict
      → verdict.1 ≡ none
      → last_kind (classify_with_recovery env cfg.recover_panics c val err key s).1.log
        ≡ some verdict.0.kind
  unfolding classify_with_recovery last_kind
  classify_logs c val err verdict s h n = ground arith

  result-IsHonest :
      (pol : RetryPolicy F) (c : C) (last : Bool) (backoff : ℤ) (result : V × Option Err) (s : St W)
      → IsHonest last v e b (after_result env cfg key pol c last backoff result s)
  unfolding after_result
  result-IsHonest pol c last backoff result s =
      let s1 = (classify_with_recovery env cfg.recover_panics c result.0 result.1 key s).1 in
      bind_rule (IsHonest last v e b)
        (classify_with_recovery env cfg.recover_panics c result.0 result.1 key)
        (after_verdict env cfg key pol last backoff result) s
        (λ verdict h.
          verdict-IsHonest pol last backoff result verdict s1
            (classify_logs c result.0 result.1 verdict s h))
        (λ u h. ground arith)

  decision-IsHonest :
      (pol : RetryPolicy F) (c : C) (last : Bool) (attempt : ℕ) (backoff : ℤ) (val : V)
      (d : Decision) (s : St W)
      → IsHonest last v e b (after_decision env cfg key pol c last attempt backoff val d s)
  unfolding after_decision
  decision-IsHonest pol c last attempt backoff val d s = elim (Bool-cases d.allowed) [
    | inl yes_allowed ↦ rw yes_allowed (
        bind_rule (IsHonest last v e b) (run_attempt env cfg key attempt d.release)
          (after_result env cfg key pol c last backoff) s
          (λ result h.
            result-IsHonest pol c last backoff result
              (run_attempt env cfg key attempt d.release s).1)
          (λ u h. ground arith))
    | inr denied ↦ rw denied (ground arith)
  ]

  context-IsHonest :
      (pol : RetryPolicy F) (c : C) (last : Bool) (attempt : ℕ) (backoff : ℤ) (val : V)
      (cerr : Option Err) (s : St W)
      → IsHonest last v e b (after_context env cfg key pol c last attempt backoff val cerr s)
  unfolding after_context
  context-IsHonest pol c last attempt backoff val (some x) s = ground arith
  context-IsHonest pol c last attempt backoff val none s =
      bind_rule (IsHonest last v e b) (allow_attempt env cfg key attempt kind_retry pol.budget)
        (after_decision env cfg key pol c last attempt backoff val) s
        (λ d h.
          decision-IsHonest pol c last attempt backoff val d
            (allow_attempt env cfg key attempt kind_retry pol.budget s).1)
        (λ u h. ground arith)

  round-IsHonest :
      (pol : RetryPolicy F) (c : C) (last : Bool) (attempt : ℕ) (backoff : ℤ) (val : V) (s : St W)
      → IsHonest last v e b (round env cfg key pol c last attempt backoff val s)
  unfolding round
  round-IsHonest pol c last attempt backoff val s =
      bind_rule (IsHonest last v e b) (effect env.ctx_err)
        (after_context env cfg key pol c last attempt backoff val) s
        (λ cerr h. context-IsHonest pol c last attempt backoff val cerr (effect env.ctx_err s).1)
        (λ u h. ground arith)

module _ {F V W B C : Type 0} ⦃fl : Float F⦄ (env : Env F V W B C) (cfg : Config B C)
    (key : PolicyKey) where
  -- An outcome of the loop that reports success is backed by a classification.
  abbrev Backed : V → Exit (V × Option Err) × St W → Type 0
  Backed v r = r.0 ≡ returned (v, none) → last_kind r.1.log ≡ some success

  after_round_honest :
      (rest : V → Option Err → ℤ → M W (V × Option Err)) (r : Round V) (s : St W) (v : V)
      → (r ≡ done v none → last_kind s.log ≡ some success)
      → ((val : V) (err : Option Err) (b : ℤ) → r ≡ again val err b → Backed v (rest val err b s))
      → Backed v (after_round env cfg key rest r s)
  unfolding after_round
  after_round_honest rest (done val none) s v h g = ground arith
  after_round_honest rest (done val (some x)) s v h g = ground arith
  after_round_honest rest (again val err b) s v h g = g val err b (λ i. again val err b)

  -- A loop is honest if what follows its first round is.
  step_honest :
      (pol : RetryPolicy F) (c : C) (left attempt : ℕ) (val : V) (err : Option Err) (backoff : ℤ)
      (s : St W) (v : V)
      → ((val' : V) (err' : Option Err) (b : ℤ) (s' : St W)
          → (left == 0) ≡ false
          → Backed v (loop env cfg key pol c left (suc attempt) val' err' b s'))
      → Backed v (loop env cfg key pol c (suc left) attempt val err backoff s)
  unfolding loop
  step_honest pol c left attempt val err backoff s v ih =
      let this = round env cfg key pol c (left == 0) attempt backoff val in
      let s1 = (this s).1 in
      bind_rule (Backed v) this
        (after_round env cfg key (loop env cfg key pol c left (suc attempt))) s
        (λ r e.
          after_round_honest (loop env cfg key pol c left (suc attempt)) r s1 v
            (λ d.
              (round-IsHonest env cfg key v none backoff pol c (left == 0) attempt backoff val s).0
                (e ∙ ap returned d))
            (λ val' err' b d. ih val' err' b s1 (
              (round-IsHonest env cfg key val' err' b pol c (left == 0) attempt backoff val s).1
                (e ∙ ap returned d))))
        (λ u h. ground arith)

  -- A loop of at least one round that returns without an error has had its last attempt classified
  -- as a success: no budget denial, context error, sleep error, panic of the classifier or failure of
  -- the last attempt is reported as a success.
  pub loop_honest :
      (pol : RetryPolicy F) (c : C) (left attempt : ℕ) (val : V) (err : Option Err) (backoff : ℤ)
      (s : St W) (v : V)
      → (loop env cfg key pol c (suc left) attempt val err backoff s).0 ≡ returned (v, none)
      → last_kind (loop env cfg key pol c (suc left) attempt val err backoff s).1.log ≡ some success
  loop_honest pol c zero attempt val err backoff s v =
      step_honest pol c zero attempt val err backoff s v (λ val' err' b s' h. ground (arith, h))
  loop_honest pol c (suc left) attempt val err backoff s v =
      step_honest pol c (suc left) attempt val err backoff s v
        (λ val' err' b s' h. loop_honest pol c left (suc attempt) val' err' b s' v)

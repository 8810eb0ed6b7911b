-- ===== src/Retry/Fast/Bounds.antt =====
-- The retry loop's budget of calls and sleeps, and the balance of granted and released budgets.
use recourse.Common.{
  ℕ, zero, suc, ◌+◌, ◌≤◌, String, Bool, ◌≡◌, Option, none, some, if◌then◌else◌, arith, ◌==◌, ◌-◌,
  Bool-cases, inl, inr,
}
use recourse.Common.Int.{ℤ}
use recourse.Common.Float.{Float}
use recourse.Policy.{PolicyKey, RetryPolicy}
use recourse.Errors.{Err}
use recourse.Classify.{Outcome}
use recourse.Budget.{kind_retry, Decision}
use recourse.Retry.{Exit, returned, panicked, St, Env, Config, M, ◌>>=◌}
use recourse.Retry.Rules.{bind_rule}
use recourse.Retry.Allow.{allow_attempt}
use recourse.Retry.Verdict.{classify_with_recovery}
use recourse.Retry.Fast.{
  Round, done, again, run_attempt, judge, after_verdict, after_result, after_decision,
  after_context, round, after_round, loop,
}
use recourse.Retry.Fast.Counts.{
  ops, sleeps, grants, releases, weight_of, IsQuiet, owed, Allows, allow_attempt-Allows,
  classify-IsQuiet, terminal_error-IsQuiet, compute_sleep-IsQuiet,
}

-- A step with `calls` calls of the operation and `waits` sleeps at most, in which the release functions
-- that were granted weigh what those that were called weigh.
pub record Within {W : Type 0} (weight : ℕ → ℕ) (calls waits : ℕ) (s s' : St W) : Type 0 where
  pub few_ops : ops s'.log ≤ ops s.log + calls
  pub few_sleeps : sleeps s'.log ≤ sleeps s.log + waits
  pub balance :
      grants weight s'.log + releases weight s.log ≡ releases weight s'.log + grants weight s.log

abbrev pub Counted : {W : Type 0} → (ℕ → ℕ) → St W → St W → Decision → Type 0
Counted weight s s' d =
    (ops s'.log ≡ ops s.log)
    × (sleeps s'.log ≡ sleeps s.log)
    × (grants weight s'.log ≡ grants weight s.log + owed weight d)
    × (releases weight s'.log ≡ releases weight s.log)

pub Allows-returned :
    {W : Type 0} (weight : ℕ → ℕ) (s : St W) (x : Exit Decision × St W) (d : Decision)
    → Allows weight s x
    → x.0 ≡ returned d
    → Counted weight s x.1 d
Allows-returned weight s (returned d', s') d h e = let same : d' ≡ d = cc in rw same at h
Allows-returned weight s (panicked v, s') d h e = cc

pub Allows-panicked :
    {W : Type 0} (weight : ℕ → ℕ) (s : St W) (x : Exit Decision × St W) (v : String)
    → Allows weight s x
    → x.0 ≡ panicked v
    → IsQuiet weight s x.1
Allows-panicked weight s (returned d', s') v h e = cc
Allows-panicked weight s (panicked v', s') v h e = h

module _ {F V W B C : Type 0} ⦃fl : Float F⦄ (env : Env F V W B C) (cfg : Config B C)
    (key : PolicyKey) (weight : ℕ → ℕ) where
  -- The operation is called once, and the release function after it, also when it panics.
  run_attempt_counts :
      (attempt : ℕ) (release : Option ℕ) (s : St W)
      → let s' = (run_attempt env cfg key attempt release s).1 in
        (ops s'.log ≡ suc (ops s.log))
        × (sleeps s'.log ≡ sleeps s.log)
        × (grants weight s'.log ≡ grants weight s.log)
        × (releases weight s'.log ≡ releases weight s.log + weight_of weight release)
  unfolding run_attempt
  run_attempt_counts attempt none s = ground arith
  run_attempt_counts attempt (some r) s = ground arith

  judge_counts :
      (pol : RetryPolicy F) (last : Bool) (backoff : ℤ) (val : V) (err : Option Err) (out : Outcome)
      (s : St W)
      → Within weight 0
          (if last then 0 else 1)
          s
          (judge env cfg key pol last backoff val err out s).1
  unfolding judge
  judge_counts pol last backoff val err out s = ground (
    arith,
    terminal_error-IsQuiet env cfg key weight err out s,
    compute_sleep-IsQuiet env cfg key weight backoff pol out s,
  )

  after_verdict_counts :
      (pol : RetryPolicy F) (last : Bool) (backoff : ℤ) (result : V × Option Err)
      (verdict : Outcome × Option Err) (s : St W)
      → Within weight 0
          (if last then 0 else 1)
          s
          (after_verdict env cfg key pol last backoff result verdict s).1
  unfolding after_verdict
  after_verdict_counts pol last backoff (val, err) (out, some e) s = ground arith
  after_verdict_counts pol last backoff (val, err) (out, none) s =
      judge_counts pol last backoff val err out s

  after_result_counts :
      (pol : RetryPolicy F) (c : C) (last : Bool) (backoff : ℤ) (result : V × Option Err) (s : St W)
      → Within weight 0
          (if last then 0 else 1)
          s
          (after_result env cfg key pol c last backoff result s).1
  unfolding after_result
  after_result_counts pol c last backoff result s =
      let quiet = classify-IsQuiet env cfg key weight cfg.recover_panics c result.0 result.1 s in
      let s1 = (classify_with_recovery env cfg.recover_panics c result.0 result.1 key s).1 in
      bind_rule (λ (r : Exit (Round V) × St W). Within weight 0 (if last then 0 else 1) s r.1)
        (classify_with_recovery env cfg.recover_panics c result.0 result.1 key)
        (after_verdict env cfg key pol last backoff result) s
        (λ verdict e.
          ground (arith, quiet, after_verdict_counts pol last backoff result verdict s1))
        (λ v e. ground (arith, quiet))

  attempt_counts :
      (pol : RetryPolicy F) (c : C) (last : Bool) (attempt : ℕ) (backoff : ℤ) (release : Option ℕ)
      (s : St W)
      → let s' =
          ((run_attempt env cfg key attempt release >>= after_result env cfg key pol c last backoff)
            s).1 in
        (ops s'.log ≤ suc (ops s.log))
        × (sleeps s'.log ≤ sleeps s.log + (if last then 0 else 1))
        × (grants weight s'.log + releases weight s.log + weight_of weight release
            ≡ releases weight s'.log + grants weight s.log)
  attempt_counts pol c last attempt backoff release s =
      let ran = run_attempt_counts attempt release s in
      let s1 = (run_attempt env cfg key attempt release s).1 in
      bind_rule
        (λ (r : Exit (Round V) × St W).
          (ops r.1.log ≤ suc (ops s.log))
          × (sleeps r.1.log ≤ sleeps s.log + (if last then 0 else 1))
          × (grants weight r.1.log + releases weight s.log + weight_of weight release
              ≡ releases weight r.1.log + grants weight s.log))
        (run_attempt env cfg key attempt release) (after_result env cfg key pol c last backoff) s
        (λ result e. ground (arith, ran, after_result_counts pol c last backoff result s1))
        (λ v e. ground (arith, ran))

  -- What follows an allowed decision releases what the decision owes.
  after_decision_counts :
      (pol : RetryPolicy F) (c : C) (last : Bool) (attempt : ℕ) (backoff : ℤ) (val : V)
      (d : Decision) (s : St W)
      → let s' = (after_decision env cfg key pol c last attempt backoff val d s).1 in
        (ops s'.log ≤ suc (ops s.log))
        × (sleeps s'.log ≤ sleeps s.log + (if last then 0 else 1))
        × (grants weight s'.log + releases weight s.log + owed weight d
            ≡ releases weight s'.log + grants weight s.log)
  unfolding after_decision
  after_decision_counts pol c last attempt backoff val d s = elim (Bool-cases d.allowed) [
    | inl yes_allowed ↦ rw yes_allowed (attempt_counts pol c last attempt backoff d.release s)
    | inr denied ↦ rw denied (ground arith)
  ]

  after_context_counts :
      (pol : RetryPolicy F) (c : C) (last : Bool) (attempt : ℕ) (backoff : ℤ) (val : V)
      (cerr : Option Err) (s : St W)
      → Within weight 1
          (if last then 0 else 1)
          s
          (after_context env cfg key pol c last attempt backoff val cerr s).1
  unfolding after_context
  after_context_counts pol c last attempt backoff val (some e) s = ground arith
  after_context_counts pol c last attempt backoff val none s =
      let asked = allow_attempt env cfg key attempt kind_retry pol.budget s in
      let allows = allow_attempt-Allows env cfg key weight attempt kind_retry pol.budget s in
      bind_rule (λ (r : Exit (Round V) × St W). Within weight 1 (if last then 0 else 1) s r.1)
        (allow_attempt env cfg key attempt kind_retry pol.budget)
        (after_decision env cfg key pol c last attempt backoff val) s
        (λ d e. ground (
          arith,
          Allows-returned weight s asked d allows e,
          after_decision_counts pol c last attempt backoff val d asked.1,
        ))
        (λ v e. ground (arith, Allows-panicked weight s asked v allows e))

  -- A round, whatever it ends in.
  round_counts :
      (pol : RetryPolicy F) (c : C) (last : Bool) (attempt : ℕ) (backoff : ℤ) (val : V) (s : St W)
      → Within weight 1
          (if last then 0 else 1)
          s
          (round env cfg key pol c last attempt backoff val s).1
  unfolding round
  round_counts pol c last attempt backoff val s =
      let (cerr, w) = env.ctx_err s.world in
      ground (
        arith,
        after_context_counts pol c last attempt backoff val cerr
            (record { world = w; log = s.log }),
      )

  after_round_counts :
      (n : ℕ) (rest : V → Option Err → ℤ → M W (V × Option Err)) (r : Round V) (s : St W)
      → ((v : V) (e : Option Err) (b : ℤ) → Within weight n (n - 1) s (rest v e b s).1)
      → Within weight n (n - 1) s (after_round env cfg key rest r s).1
  unfolding after_round
  after_round_counts n rest (done v e) s ih = ground arith
  after_round_counts n rest (again v e b) s ih = ih v e b

  -- A loop of `n` rounds calls the operation at most `n` times and sleeps at most `n - 1` times, and
  -- calls every release function that its budget granted, also where the operation or a part that it
  -- calls panics.
  pub loop_counts :
      (pol : RetryPolicy F) (c : C) (n attempt : ℕ) (val : V) (err : Option Err) (backoff : ℤ)
      (s : St W)
      → Within weight n (n - 1) s (loop env cfg key pol c n attempt val err backoff s).1
  unfolding loop
  loop_counts pol c zero attempt val err backoff s = ground arith
  loop_counts pol c (suc left) attempt val err backoff s =
      let now = round_counts pol c (left == 0) attempt backoff val s in
      let s1 = (round env cfg key pol c (left == 0) attempt backoff val s).1 in
      bind_rule
        (λ (r : Exit (V × Option Err) × St W). Within weight (suc left) (suc left - 1) s r.1)
        (round env cfg key pol c (left == 0) attempt backoff val)
        (after_round env cfg key (loop env cfg key pol c left (suc attempt))) s
        (λ r e. ground (
          arith,
          now,
          after_round_counts left (loop env cfg key pol c left (suc attempt)) r s1
              (λ v e b. loop_counts pol c left (suc attempt) v e b s1),
        ))
        (λ v e. ground (arith, now))

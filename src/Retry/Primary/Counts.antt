-- ===== src/Retry/Primary/Counts.antt =====
-- A group of one attempt calls the operation at most once, does not sleep, and releases what its
-- budget grants.
use recourse.Common.{
  ℕ, suc, ◌+◌, ◌≤◌, Bool, ◌≡◌, List, Option, none, some, arith, Bool-cases, inl, inr,
}
use recourse.Common.Int.{ℤ}
use recourse.Common.Float.{Float}
use recourse.Policy.{PolicyKey, EffectivePolicy}
use recourse.Errors.{Err}
use recourse.Classify.{Outcome}
use recourse.Budget.{Decision}
use recourse.Observe.{AttemptRecord}
use recourse.Retry.{Exit, St, Env, Config, M, ◌>>=◌, ◌>>◌, emit, risky, effect, pure, op_called}
use recourse.Retry.Rules.{bind_rule}
use recourse.Retry.Allow.{allow_attempt}
use recourse.Retry.Verdict.{ClassifierMeta, classify_with_recovery}
use recourse.Retry.Fast.{release_after}
use recourse.Retry.Fast.Counts.{
  ops, sleeps, grants, releases, weight_of, IsQuiet, owed, allow_attempt-Allows, classify-IsQuiet,
}
use recourse.Retry.Fast.Bounds.{Within, Allows-returned, Allows-panicked}
use recourse.Retry.Primary.{
  Launch, primary, record_attempt, budget_of, kind_of, denied, after_verdict, after_op, announce,
  run_allowed, after_decision, run_launched, after_launched, primary_group,
}
use recourse.Retry.Full.{GroupResult}

module _ {F V W B C : Type 0} ⦃fl : Float F⦄ (env : Env F V W B C) (cfg : Config B C)
    (is_nil : V → Bool) (key : PolicyKey) (pol : EffectivePolicy F) (l : Launch) (attempt : ℕ)
    (backoff : ℤ) (weight : ℕ → ℕ) where
  denied_counts :
      (start : ℤ) (d : Decision) (s : St W)
      → IsQuiet weight s (denied env cfg is_nil key pol l attempt backoff start d s).1
  unfolding denied record_attempt
  denied_counts start d s = ground arith

  verdict_counts :
      (meta : ClassifierMeta) (start end : ℤ) (d : Decision) (result : V × Option Err)
      (verdict : Outcome × Option Err) (s : St W)
      → IsQuiet weight s
          (after_verdict env cfg is_nil key pol l attempt backoff meta start end d result verdict
            s).1
  unfolding after_verdict record_attempt
  verdict_counts meta start end d (val, err) (out, p) s = ground arith

  op_counts :
      (c : C) (meta : ClassifierMeta) (start : ℤ) (d : Decision) (result : V × Option Err)
      (s : St W)
      → IsQuiet weight s
          (after_op env cfg is_nil key pol l attempt backoff c meta start d result s).1
  unfolding after_op
  op_counts c meta start d result s =
      let (end, w) = env.clock s.world in
      let s1 : St W = record { world = w; log = s.log } in
      let quiet = classify-IsQuiet env cfg key weight cfg.recover_panics c result.0 result.1 s1 in
      bind_rule (λ (r : Exit (GroupResult V × List AttemptRecord) × St W). IsQuiet weight s r.1)
        (classify_with_recovery env cfg.recover_panics c result.0 result.1 key)
        (after_verdict env cfg is_nil key pol l attempt backoff meta start end d result) s1
        (λ verdict h. ground (
          arith,
          quiet,
          verdict_counts meta start end d result verdict
              (classify_with_recovery env cfg.recover_panics c result.0 result.1 key s1).1,
        ))
        (λ u h. ground (arith, quiet))

  -- The attempt that the budget has allowed, without its release.
  abbrev body : C → ClassifierMeta → ℤ → Decision → M W (GroupResult V × List AttemptRecord)
  body c meta start d =
      announce env cfg is_nil key pol l attempt
      >> emit (op_called attempt)
      >> risky (env.run_op attempt)
      >>= after_op env cfg is_nil key pol l attempt backoff c meta start d

  -- One call of the operation, no sleep, and no grant.
  abbrev Once : St W → St W → Type 0
  Once s s' =
      (ops s'.log ≡ suc (ops s.log))
      × (sleeps s'.log ≡ sleeps s.log)
      × (grants weight s'.log ≡ grants weight s.log)
      × (releases weight s'.log ≡ releases weight s.log)

  body_counts :
      (c : C) (meta : ClassifierMeta) (start : ℤ) (d : Decision) (s : St W)
      → Once s (body c meta start d s).1
  unfolding announce
  body_counts c meta start d s =
      let before =
        announce env cfg is_nil key pol l attempt
        >> emit (op_called attempt)
        >> risky (env.run_op attempt) in
      let once : Once s (before s).1 = ground arith in
      bind_rule (λ (r : Exit (GroupResult V × List AttemptRecord) × St W). Once s r.1) before
        (after_op env cfg is_nil key pol l attempt backoff c meta start d) s
        (λ result h. ground (arith, once, op_counts c meta start d result (before s).1))
        (λ u h. once)

  release_counts :
      {A : Type 0} (release : Option ℕ) (m : M W A) (s : St W)
      → Once s (m s).1
      → let s' = (release_after env cfg key release m s).1 in
        (ops s'.log ≡ suc (ops s.log))
        × (sleeps s'.log ≡ sleeps s.log)
        × (grants weight s'.log ≡ grants weight s.log)
        × (releases weight s'.log ≡ releases weight s.log + weight_of weight release)
  unfolding release_after
  release_counts none m s h = ground (arith, h)
  release_counts (some r) m s h = ground (arith, h)

  decision_counts :
      (c : C) (meta : ClassifierMeta) (start : ℤ) (d : Decision) (s : St W)
      → let s' = (after_decision env cfg is_nil key pol l attempt backoff c meta start d s).1 in
        (ops s'.log ≤ suc (ops s.log))
        × (sleeps s'.log ≡ sleeps s.log)
        × (grants weight s'.log + releases weight s.log + owed weight d
            ≡ releases weight s'.log + grants weight s.log)
  unfolding after_decision run_allowed
  decision_counts c meta start d s = elim (Bool-cases d.allowed) [
    | inl passed ↦ rw passed (
        ground (
          arith,
          passed,
          release_counts d.release (body c meta start d) s (body_counts c meta start d s),
        ))
    | inr stopped ↦ rw stopped (ground (arith, stopped, denied_counts start d s))
  ]

  launched_counts :
      (c : C) (meta : ClassifierMeta) (s : St W)
      → Within weight 1 0 s (run_launched env cfg is_nil key pol l attempt backoff c meta s).1
  unfolding run_launched
  launched_counts c meta s =
      let (start, w) = env.clock s.world in
      let s1 : St W = record { world = w; log = s.log } in
      let kind = kind_of env cfg is_nil key pol l in
      let ref = budget_of env cfg is_nil key pol l in
      let asked = allow_attempt env cfg key attempt kind ref s1 in
      let allows = allow_attempt-Allows env cfg key weight attempt kind ref s1 in
      bind_rule (λ (r : Exit (GroupResult V × List AttemptRecord) × St W). Within weight 1 0 s r.1)
        (allow_attempt env cfg key attempt kind ref)
        (after_decision env cfg is_nil key pol l attempt backoff c meta start) s1
        (λ d h. ground (
          arith,
          Allows-returned weight s1 asked d allows h,
          decision_counts c meta start d asked.1,
        ))
        (λ u h. ground (arith, Allows-panicked weight s1 asked u allows h))

module _ {F V W B C : Type 0} ⦃fl : Float F⦄ (env : Env F V W B C) (cfg : Config B C)
    (is_nil : V → Bool) (key : PolicyKey) (pol : EffectivePolicy F) (weight : ℕ → ℕ) where
  pub primary_group_counts :
      (ending : ℕ → W → Option Err × W) (c : C) (meta : ClassifierMeta) (attempt : ℕ) (backoff : ℤ)
      (s : St W)
      → Within weight 1 0 s (primary_group env cfg is_nil key pol ending c meta attempt backoff s).1
  unfolding primary_group
  primary_group_counts ending c meta attempt backoff s =
      let launched = run_launched env cfg is_nil key pol primary attempt backoff c meta in
      let few = launched_counts env cfg is_nil key pol primary attempt backoff weight c meta s in
      bind_rule (λ (r : Exit (GroupResult V × List AttemptRecord) × St W). Within weight 1 0 s r.1)
        launched
        (λ answer.
          effect (ending attempt) >>= λ e. pure (after_launched env cfg is_nil key pol e answer))
        s (λ answer h. ground (arith, few)) (λ u h. few)

-- ===== src/Retry/Primary/Silent.antt =====
-- A group of one attempt tells the observer of no end of its call.
use recourse.Common.{ℕ, Bool, ◌≡◌, Option, none, some, arith, ◌∙◌}
use recourse.Common.Int.{ℤ}
use recourse.Common.Float.{Float}
use recourse.Policy.{PolicyKey, BudgetRef, EffectivePolicy}
use recourse.Errors.{Err}
use recourse.Classify.{Outcome}
use recourse.Budget.{AttemptKind, Decision}
use recourse.Retry.{Exit, St, Env, Config, M, ◌>>=◌, ◌>>◌, emit, risky, op_called, effect, pure}
use recourse.Retry.Rules.{bind_rule}
use recourse.Retry.Allow.{allow_attempt}
use recourse.Retry.Verdict.{ClassifierMeta, classify_with_recovery}
use recourse.Retry.Fast.{release_after}
use recourse.Retry.Primary.{
  Launch, primary, record_attempt, budget_of, kind_of, denied, after_verdict, after_op, announce,
  run_allowed, after_decision, run_launched, primary_group, after_launched,
}
use recourse.Retry.Full.Report.{reports, IsSilent}

-- The count of reports is that of a number `n`.
abbrev Keeps : {W A : Type 0} → ℕ → Exit A × St W → Type 0
Keeps n r = reports r.1.log ≡ n

module _ {F V W B C : Type 0} ⦃fl : Float F⦄ (env : Env F V W B C) (cfg : Config B C)
    (is_nil : V → Bool) (key : PolicyKey) (pol : EffectivePolicy F) (l : Launch) (attempt : ℕ)
    (backoff : ℤ) where
  allow-Keeps :
      (s : St W) (kind : AttemptKind) (ref : BudgetRef)
      → Keeps (reports s.log) (allow_attempt env cfg key attempt kind ref s)
  unfolding allow_attempt reports
  allow-Keeps s kind ref = ground arith

  classify-Keeps :
      (c : C) (val : V) (err : Option Err) (s : St W)
      → Keeps (reports s.log) (classify_with_recovery env cfg.recover_panics c val err key s)
  unfolding classify_with_recovery reports
  classify-Keeps c val err s = ground arith

  denied-Keeps :
      (start : ℤ) (d : Decision) (s : St W)
      → Keeps (reports s.log) (denied env cfg is_nil key pol l attempt backoff start d s)
  unfolding denied record_attempt reports
  denied-Keeps start d s = ground arith

  verdict-Keeps :
      (meta : ClassifierMeta) (start end : ℤ) (d : Decision) (result : V × Option Err)
      (verdict : Outcome × Option Err) (s : St W)
      → Keeps
          (reports s.log)
          (after_verdict env cfg is_nil key pol l attempt backoff meta start end d result verdict s)
  unfolding after_verdict record_attempt reports
  verdict-Keeps meta start end d (val, err) (out, p) s = ground arith

  op-Keeps :
      (c : C) (meta : ClassifierMeta) (start : ℤ) (d : Decision) (result : V × Option Err)
      (s : St W)
      → Keeps
          (reports s.log)
          (after_op env cfg is_nil key pol l attempt backoff c meta start d result s)
  unfolding after_op
  op-Keeps c meta start d result s =
      let (end, w) = env.clock s.world in
      let s1 : St W = record { world = w; log = s.log } in
      let quiet = classify-Keeps c result.0 result.1 s1 in
      bind_rule (Keeps (reports s.log))
        (classify_with_recovery env cfg.recover_panics c result.0 result.1 key)
        (after_verdict env cfg is_nil key pol l attempt backoff meta start end d result) s1
        (λ verdict h.
          verdict-Keeps meta start end d result verdict
            (classify_with_recovery env cfg.recover_panics c result.0 result.1 key s1).1
          ∙ quiet)
        (λ u h. quiet)

  ran-Keeps :
      (c : C) (meta : ClassifierMeta) (start : ℤ) (d : Decision) (s : St W)
      → Keeps (reports s.log) (
          (announce env cfg is_nil key pol l attempt
              >> emit (op_called attempt)
              >> risky (env.run_op attempt)
              >>= after_op env cfg is_nil key pol l attempt backoff c meta start d)
            s)
  unfolding announce reports
  ran-Keeps c meta start d s =
      let before =
        announce env cfg is_nil key pol l attempt
        >> emit (op_called attempt)
        >> risky (env.run_op attempt) in
      let same : reports (before s).1.log ≡ reports s.log = ground arith in
      bind_rule (Keeps (reports s.log)) before
        (after_op env cfg is_nil key pol l attempt backoff c meta start d) s
        (λ result h. op-Keeps c meta start d result (before s).1 ∙ same) (λ u h. same)

  release-Keeps :
      {A : Type 0} (release : Option ℕ) (m : M W A) (s : St W)
      → Keeps (reports s.log) (m s)
      → Keeps (reports s.log) (release_after env cfg key release m s)
  unfolding release_after reports
  release-Keeps none m s h = h
  release-Keeps (some r) m s h = ground (arith, h)

  decision-Keeps :
      (c : C) (meta : ClassifierMeta) (start : ℤ) (d : Decision) (s : St W)
      → Keeps
          (reports s.log)
          (after_decision env cfg is_nil key pol l attempt backoff c meta start d s)
  unfolding after_decision run_allowed
  decision-Keeps c meta start d s = ground (
    arith,
    denied-Keeps start d s,
    release-Keeps d.release
        (announce env cfg is_nil key pol l attempt
          >> emit (op_called attempt)
          >> risky (env.run_op attempt)
          >>= after_op env cfg is_nil key pol l attempt backoff c meta start d)
        s (ran-Keeps c meta start d s),
  )

  launched-Keeps :
      (c : C) (meta : ClassifierMeta) (s : St W)
      → Keeps (reports s.log) (run_launched env cfg is_nil key pol l attempt backoff c meta s)
  unfolding run_launched
  launched-Keeps c meta s =
      let (start, w) = env.clock s.world in
      let s1 : St W = record { world = w; log = s.log } in
      let kind = kind_of env cfg is_nil key pol l in
      let ref = budget_of env cfg is_nil key pol l in
      let quiet = allow-Keeps s1 kind ref in
      bind_rule (Keeps (reports s.log)) (allow_attempt env cfg key attempt kind ref)
        (after_decision env cfg is_nil key pol l attempt backoff c meta start) s1
        (λ d h.
          decision-Keeps c meta start d (allow_attempt env cfg key attempt kind ref s1).1 ∙ quiet)
        (λ u h. quiet)

module _ {F V W B C : Type 0} ⦃fl : Float F⦄ (env : Env F V W B C) (cfg : Config B C)
    (is_nil : V → Bool) (key : PolicyKey) (pol : EffectivePolicy F) where
  -- The group of a policy without hedges is silent, whatever the operation, the budget and the
  -- classifier do, and however the group ends.
  pub primary_group-IsSilent :
      (ending : ℕ → W → Option Err × W) (c : C) (meta : ClassifierMeta)
      → IsSilent (primary_group env cfg is_nil key pol ending c meta)
  unfolding primary_group
  primary_group-IsSilent ending c meta attempt backoff s =
      let launched = run_launched env cfg is_nil key pol primary attempt backoff c meta in
      let quiet = launched-Keeps env cfg is_nil key pol primary attempt backoff c meta s in
      bind_rule (Keeps (reports s.log)) launched
        (λ answer.
          effect (ending attempt) >>= λ e. pure (after_launched env cfg is_nil key pol e answer))
        s (λ answer h. quiet) (λ u h. quiet)

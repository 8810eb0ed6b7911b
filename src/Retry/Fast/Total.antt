-- ===== src/Retry/Fast/Total.antt =====
-- The bounds of a whole call on the fast path.
use recourse.Common.{ℕ, ◌≤◌, inl, inr, Option, none, some, arith, Bool-cases}
use recourse.Common.Int.{ℤ, pos, ◌≤ℤ◌}
use recourse.Common.Float.{Float}
use recourse.Policy.{PolicyKey, EffectivePolicy}
use recourse.Errors.{Err}
use recourse.Retry.{Exit, St, Env, Config}
use recourse.Retry.Rules.{bind_rule, Ends, Ends_returned, Ends_panicked}
use recourse.Retry.Resolve.{resolve_policy_fast, ask_provider, answer_fast}
use recourse.Retry.Resolve.Laws.{resolve_fast-attempts}
use recourse.Retry.Verdict.{resolve_classifier}
use recourse.Retry.Fast.{rounds_of, run_policy, fast_with, after_policy, do_value_fast}
use recourse.Retry.Fast.Counts.{IsQuiet}
use recourse.Retry.Fast.Bounds.{Within, loop_counts}

pub rounds_of-le : (n : ℤ) → n ≤ℤ pos 10 → rounds_of n ≤ 10
unfolding rounds_of
rounds_of-le n h = ground arith

module _ {F V W B C : Type 0} ⦃fl : Float F⦄ (env : Env F V W B C) (cfg : Config B C)
    (key : PolicyKey) (weight : ℕ → ℕ) where
  run_policy_counts :
      (pol : EffectivePolicy F) (c : Option C) (err : Option Err) (s : St W)
      → pol.retry.max_attempts ≤ℤ pos 10
      → Within weight 10 9 s (run_policy env cfg key pol c err s).1
  unfolding run_policy
  run_policy_counts pol none err s h = ground arith
  run_policy_counts pol (some c) (some e) s h = ground arith
  run_policy_counts pol (some c) none s h = ground (
    arith,
    rounds_of-le pol.retry.max_attempts h,
    loop_counts env cfg key weight pol.retry c (rounds_of pol.retry.max_attempts) 0 env.zero_value
        none pol.retry.initial_backoff s,
  )

  fast_with_counts :
      (pol : EffectivePolicy F) (err : Option Err) (s : St W)
      → pol.retry.max_attempts ≤ℤ pos 10
      → Within weight 10 9 s (fast_with env cfg key pol err s).1
  unfolding fast_with
  fast_with_counts pol (some e) s h = ground arith
  fast_with_counts pol none s h =
      let (c, meta, e) = resolve_classifier cfg pol in
      let run = run_policy_counts pol c e s h in
      elim (Bool-cases pol.hedge.enabled) [
        | inl hedged ↦ simp hedged (ground arith)
        | inr plain ↦ elim (Bool-cases pol.circuit.enabled) [
          | inl guarded ↦ simp (plain, guarded) (ground arith)
          | inr open_path ↦ simp (plain, open_path) run
        ]
      ]

  -- A policy of at most ten attempts, after a quiet step.
  abbrev FewAttempts : St W → EffectivePolicy F × Option Err → St W → Type 0
  FewAttempts s a s' = IsQuiet weight s s' × (a.0.retry.max_attempts ≤ℤ pos 10)

  pub ask_provider-IsQuiet : (s : St W) → IsQuiet weight s (ask_provider env cfg key s).1
  unfolding ask_provider
  ask_provider-IsQuiet s = ground arith

  resolve-Ends :
      (s : St W) → Ends (FewAttempts s) (IsQuiet weight s) (resolve_policy_fast env cfg key s)
  unfolding resolve_policy_fast
  resolve-Ends s =
      let quiet = ask_provider-IsQuiet s in
      bind_rule (Ends (FewAttempts s) (IsQuiet weight s)) (ask_provider env cfg key)
        (answer_fast env cfg key) s
        (λ a e. (quiet, resolve_fast-attempts cfg.missing_policy_mode key a.0 a.1)) (λ v e. quiet)

  -- A call on the fast path runs the operation at most ten times and sleeps at most nine times,
  -- whatever policy the provider returns and however the call ends, and it calls each
  -- release function exactly as often as a budget has granted it with an allowed attempt: whatever the
  -- functions weigh, those granted weigh what those called weigh.
  pub do_value_fast_counts : (s : St W) → Within weight 10 9 s (do_value_fast env cfg key s).1
  unfolding do_value_fast after_policy
  do_value_fast_counts s =
      let resolved = resolve_policy_fast env cfg key s in
      let few = resolve-Ends s in
      bind_rule (λ (r : Exit (V × Option Err) × St W). Within weight 10 9 s r.1)
        (resolve_policy_fast env cfg key) (after_policy env cfg key) s
        (λ a e. ground (
          arith,
          Ends_returned (FewAttempts s) (IsQuiet weight s) resolved a few e,
          fast_with_counts a.0 a.1 resolved.1,
        ))
        (λ v e. ground (arith, Ends_panicked (FewAttempts s) (IsQuiet weight s) resolved v few e))

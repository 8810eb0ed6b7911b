-- ===== src/Examples/Calls.antt =====
-- retry/executor.go on concrete calls: an operation that follows a script, one budget that hands out
-- release functions, and a provider that gives the default policy with that budget.
use recourse.Common.{suc, ℕ, true, false, ◌≡◌, ◌≢◌, refl, List, [], ◌∷◌, Option, none, some}
use recourse.Common.Int.{pos, ◌-ℤ◌}
use recourse.Policy.{BudgetRef, EffectivePolicy}
use recourse.Policy.Defaults.{default_policy_for}
use recourse.Errors.{Err, new, errors_is}
use recourse.Classify.{Outcome, outcome, retryable, always_retry_on_error, success}
use recourse.Budget.{Decision}
use recourse.Retry.{
  mode_unknown, mode_allow_unsafe, mode_deny, mode_fallback, Exit, returned, St, Env, Config,
}
use recourse.Retry.Backoff.{next_backoff, compute_sleep}
use recourse.Retry.Backoff.Bounds.{IsWait, Returns, compute_sleep-IsWait}
use recourse.Retry.Resolve.{resolve_fast_from, resolve_policy_fast, resolve_policy_with_attributes}
use recourse.Retry.Resolve.Laws.{IsSound, resolve_fast-IsNormalized, bare_result, resolutions_agree}
use recourse.Retry.Setup.{ExecutorOptions, new_executor_from_options, built-IsSound}
use recourse.Retry.Allow.{allow_attempt, with_reason}
use recourse.Retry.Verdict.{classify_with_recovery, terminal_error}
use recourse.Budget.Registry.{get}
use recourse.Common.Text.{trim_space}
use recourse.Common.Dict.{lookup}
use recourse.Retry.Fast.{
  after_round, round, after_context, after_decision, after_result, after_verdict, judge, stop_round,
  wait_round, run_attempt, release_after, loop, do_value_fast,
}
use recourse.Retry.Fast.Honest.{last_kind, loop_honest}
use recourse.Retry.Fast.Bounds.{Within}
use recourse.Retry.Fast.Total.{do_value_fast_counts}
use recourse.Examples.{thousandths, exact, user_key}

-- What the operation does next.
abbrev pub Script : Type 0
Script = List (Exit (ℕ × Option Err))

abbrev pub next_result : Script → Exit (ℕ × Option Err) × Script
next_result [] = (returned (0, some (new "script ended")), [])
next_result (r ∷ rs) = (r, rs)

abbrev pub calls_ref : BudgetRef
calls_ref = record { name = "calls"; cost = pos 1 }

abbrev pub policy : EffectivePolicy ℕ
policy = record (default_policy_for user_key) {
  retry = record ((default_policy_for {F = ℕ} user_key).retry) { budget = calls_ref };
}

abbrev pub granting : Decision
granting = record { allowed = true; reason = "allowed"; release = some 4 }

abbrev env : Env ℕ ℕ Script ℕ ℕ
env = record {
  clock = λ w. (pos 0, w);
  ctx_err = λ w. (none, w);
  run_op = λ attempt w. next_result w;
  sleep = λ d w. (none, w);
  rand = λ w. (500, w);
  allow = λ b key attempt kind ref w. (returned granting, w);
  is_typed_nil = λ b. false;
  release = λ r w. w;
  classify = λ c v e w. (returned (always_retry_on_error e), w);
  get_policy = λ key w. (returned (policy, none), w);
  error_text = λ e. "error";
  zero_value = 0;
}

abbrev pub cfg : Config ℕ ℕ
cfg = record {
  budgets = some (("calls", 3) ∷ []);
  classifiers = [];
  default_classifier = 1;
  missing_policy_mode = mode_deny;
  missing_classifier_mode = mode_fallback;
  missing_budget_mode = mode_deny;
  recover_panics = true;
}

-- One failure, then a success.
abbrev start : St Script
start = record { world = returned (0, some (new "busy")) ∷ returned (7, none) ∷ []; log = [] }

abbrev late : Outcome
late = record (outcome retryable "http_503") { backoff_override = pos 90_000_000_000 }

do_value_fast_counts_example : Within suc 10 9 start (do_value_fast env cfg user_key start).1
do_value_fast_counts_example = do_value_fast_counts env cfg user_key suc start

compute_sleep-IsWait_example :
    Returns
      (IsWait policy.retry.max_backoff)
      (compute_sleep env (pos 10_000_000) policy.retry late start).0
compute_sleep-IsWait_example = compute_sleep-IsWait env (pos 10_000_000) policy.retry late start

resolve_fast-IsNormalized_example :
    IsSound user_key (resolve_fast_from mode_fallback user_key policy (some (new "down")))
resolve_fast-IsNormalized_example =
    resolve_fast-IsNormalized exact mode_fallback user_key policy (some (new "down")) refl

resolutions_agree_example :
    (bare_result env cfg (resolve_policy_with_attributes env cfg user_key start)
      ≡ resolve_policy_fast env cfg user_key start)
    × ((resolve_policy_fast env cfg user_key start).1
        ≡ record (start) { world = (env.get_policy user_key start.world).1 })
resolutions_agree_example = resolutions_agree env cfg user_key start

-- The loop after one failure and one success, with two more rounds allowed than are needed.
loop_recovers :
    (loop env cfg user_key policy.retry 1 3 0 0 none (pos 1_000_000) start).0 ≡ returned (7, none)
unfolding loop after_round round after_context after_decision after_result after_verdict judge
    stop_round wait_round run_attempt release_after allow_attempt classify_with_recovery
    terminal_error compute_sleep next_backoff always_retry_on_error errors_is default_policy_for
    trim_space get with_reason ◌-ℤ◌ lookup
loop_recovers = refl

loop_honest_example :
    last_kind (loop env cfg user_key policy.retry 1 3 0 0 none (pos 1_000_000) start).1.log
    ≡ some success
loop_honest_example =
    loop_honest env cfg user_key policy.retry 1 2 0 0 none (pos 1_000_000) start 7 loop_recovers

-- Options that leave every mode unset.
abbrev options : ExecutorOptions ℕ ℕ
options = record {
  classifiers = none;
  default_classifier = none;
  budgets = none;
  missing_policy_mode = mode_unknown;
  missing_classifier_mode = mode_unknown;
  missing_budget_mode = mode_unknown;
  recover_panics = false;
}

unset_is_safe : mode_unknown ≢ mode_allow_unsafe
unset_is_safe e = cc

built-IsSound_example : IsSound user_key (
    resolve_fast_from
      (new_executor_from_options 1 2 3 options).missing_policy_mode
      user_key
      policy
      (some (new "down")))
built-IsSound_example =
    built-IsSound exact 1 2 3 options user_key policy (some (new "down")) unset_is_safe

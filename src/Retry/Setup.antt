-- ===== src/Retry/Setup.antt =====
-- The construction of an executor in retry/executor.go: `NewExecutorFromOptions`. A field that may be nil is an `Option`.
use recourse.Common.{String, Bool, true, ◌≡◌, ◌≢◌, refl, [], Option, none, some, arith}
use recourse.Common.Dict.{Dict}
use recourse.Common.Float.{Float, IsExact}
use recourse.Policy.{PolicyKey, EffectivePolicy}
use recourse.Errors.{Err}
use recourse.Retry.Resolve.{resolve_fast_from}
use recourse.Retry.Resolve.Laws.{is_guarded, IsSound, resolve_fast-IsNormalized}
use recourse.Classify.Registry.{register_builtins}
use recourse.Retry.{
  FailureMode, mode_unknown, mode_deny, mode_allow, mode_fallback, mode_allow_unsafe,
  normalize_failure_mode, Config,
}

-- The fields of `ExecutorOptions` that a call on the fast path reads.
pub record ExecutorOptions (B C : Type 0) : Type 0 where
  pub classifiers : Option (Dict String C)
  pub default_classifier : Option C
  pub budgets : Option (Dict String B)
  pub missing_policy_mode : FailureMode
  pub missing_classifier_mode : FailureMode
  pub missing_budget_mode : FailureMode
  pub recover_panics : Bool

module _ {C : Type 0} (always http auto : C) where
  -- `classify.NewRegistry` with `RegisterBuiltins`, where the options bring no registry.
  unfoldable pub or_builtins : Option (Dict String C) → Dict String C
  unfolding register_builtins
  or_builtins (some r) = r
  or_builtins none = elim (register_builtins always http auto (some [])) [ some r ↦ r | none ↦ [] ]

abbrev pub or_always : {C : Type 0} → C → Option C → C
or_always always (some c) = c
or_always always none = always

module _ {B C : Type 0} (always http auto : C) where
  -- `NewExecutorFromOptions`, as far as `Config` goes.
  unfoldable pub new_executor_from_options : ExecutorOptions B C → Config B C
  new_executor_from_options opts = record {
    budgets = opts.budgets;
    classifiers = or_builtins always http auto opts.classifiers;
    default_classifier = or_always always opts.default_classifier;
    missing_policy_mode = normalize_failure_mode opts.missing_policy_mode mode_deny;
    missing_classifier_mode = normalize_failure_mode opts.missing_classifier_mode mode_fallback;
    missing_budget_mode = normalize_failure_mode opts.missing_budget_mode mode_deny;
    recover_panics = opts.recover_panics;
  }

guarded_default :
    (mode : FailureMode)
    → mode ≢ mode_allow_unsafe
    → is_guarded (normalize_failure_mode mode mode_deny) ≡ true
unfolding normalize_failure_mode
guarded_default mode_unknown h = refl
guarded_default mode_deny h = refl
guarded_default mode_allow h = refl
guarded_default mode_fallback h = refl
guarded_default mode_allow_unsafe h = ground (arith, h)

module _ {F : Type 0} ⦃fl : Float F⦄ (exact : IsExact F) {B C : Type 0} (always http auto : C) where
  -- An executor that is built from options which do not ask for the mode allow_unsafe, also from
  -- options that leave the mode unset, resolves a policy to an error or to a policy in range, whatever
  -- its provider gives.
  pub built-IsSound :
      (opts : ExecutorOptions B C) (key : PolicyKey) (pol : EffectivePolicy F) (e : Option Err)
      → opts.missing_policy_mode ≢ mode_allow_unsafe
      → IsSound key (
          resolve_fast_from
            (new_executor_from_options always http auto opts).missing_policy_mode
            key
            pol
            e)
  unfolding new_executor_from_options
  built-IsSound opts key pol e h =
      resolve_fast-IsNormalized exact (normalize_failure_mode opts.missing_policy_mode mode_deny)
        key pol e (guarded_default opts.missing_policy_mode h)

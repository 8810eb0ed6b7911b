-- ===== src/Examples/Setup.antt =====
-- retry/global.go and the options of retry/executor.go on concrete values.
use recourse.Common.{ℕ, ◌≡◌, ◌≢◌, refl, List, [], ◌∷◌, ◌++◌, some, none, if◌then◌else◌}
use recourse.Retry.{mode_allow}
use recourse.Examples.{thousandths, user_key}
use recourse.Examples.Calls.{policy}
use recourse.Retry.Options.{
  ExecutorOption, with_missing_policy_mode, add_policy, apply_options, new_executor, static_policy,
  new_executor-static,
}
use recourse.Retry.Global.{
  unset, set_default, global_calls, default_executor, default_executor_stable,
}
use recourse.Policy.Key.{key_eq}

default_executor_stable_example :
    let (e, g) =
      default_executor {E = ℕ} 1
        (global_calls (set_default (some 2) ∷ set_default (some 3) ∷ []) unset) in
    (e ≢ none) × ((default_executor 4 (global_calls (set_default (some 5) ∷ []) g)).0 ≡ e)
default_executor_stable_example =
    default_executor_stable (set_default (some 2) ∷ set_default (some 3) ∷ [])
      (set_default (some 5) ∷ []) 1 4

-- An executor with a mode set and one policy.
abbrev OptionList : Type 0
OptionList = List (ExecutorOption ℕ Unit Unit Unit ℕ ℕ ℕ ℕ)

abbrev modes : OptionList
modes = with_missing_policy_mode mode_allow ∷ []

new_executor-static_example :
    static_policy user_key
      (new_executor 1 2 3 policy 0 (modes ++ (add_policy policy ∷ []))).provider
    ≡ (if key_eq.beq policy.key user_key
        then some policy
        else static_policy user_key (new_executor 1 2 3 policy 0 modes).provider)
unfolding apply_options
new_executor-static_example = new_executor-static 1 2 3 policy 0 modes policy user_key refl

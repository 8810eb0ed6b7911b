-- ===== src/Retry/Resolve.antt =====
-- The resolution of a policy in retry/executor.go: `resolvePolicyFast` and
-- `resolvePolicyWithAttributes`.
pub mod Laws
use Prim.Native.String.{◌++◌ as append}
use recourse.Common.{ℕ, String, Bool, true, false, List, [], ◌∷◌, Option, none, some, if◌then◌else◌}
use recourse.Common.Int.{ℤ, pos}
use recourse.Common.Float.{Float}
use recourse.Policy.{PolicyKey, EffectivePolicy, NormalizeError}
use recourse.Policy.Defaults.{default_policy_for, bare_policy, is_zero_effective_policy}
use recourse.Policy.Normalize.{normalize}
use recourse.Errors.{Err, no_policy, panic_error, invalid_policy}
use recourse.Retry.{
  FailureMode, mode_unknown, mode_deny, mode_allow, mode_fallback, mode_allow_unsafe, Env, Config,
  M, ◌>>=◌, ◌>>◌, pure, risky, recovering,
}

abbrev pub no_key : PolicyKey
no_key = record { namespace = ""; name = "" }

abbrev pub as_error : NormalizeError → Err
as_error e = invalid_policy e.field e.value

module _ {F : Type 0} ⦃fl : Float F⦄ where
  abbrev pub zero_policy : EffectivePolicy F
  zero_policy = bare_policy no_key (pos 0)

  -- `if isZeroEffectivePolicy(pol) { pol = policy.DefaultPolicyFor(key) }`
  unfoldable pub or_default_policy : PolicyKey → EffectivePolicy F → EffectivePolicy F
  or_default_policy key pol = if is_zero_effective_policy pol then default_policy_for key else pol

  -- The first `switch`: what an error of the provider leaves; `none` is the error return.
  unfoldable pub after_provider :
      FailureMode → PolicyKey → EffectivePolicy F → Option Err → Option (EffectivePolicy F)
  unfolding or_default_policy
  after_provider mode key pol none = some pol
  after_provider mode_deny key pol (some e) = none
  after_provider mode_allow key pol (some e) = some (bare_policy key (pos 1))
  after_provider mode_fallback key pol (some e) = some (or_default_policy key pol)
  after_provider mode_allow_unsafe key pol (some e) = some pol
  after_provider mode_unknown key pol (some e) = some pol

  -- The second `switch`, at an error of `Normalize`.
  unfoldable pub after_normalize :
      FailureMode → PolicyKey → EffectivePolicy F → Option (EffectivePolicy F)
  after_normalize mode_deny key pol = none
  after_normalize mode_allow key pol = some (normalize (bare_policy key (pos 1))).0
  after_normalize mode_fallback key pol = some (normalize (default_policy_for key)).0
  after_normalize mode_allow_unsafe key pol = some pol
  after_normalize mode_unknown key pol = some pol

  -- The lines from the zero test to the end of `resolvePolicyFast`.
  unfoldable pub finish_fast :
      FailureMode
      → PolicyKey
      → EffectivePolicy F × Option NormalizeError
      → EffectivePolicy F × Option Err
  finish_fast mode key (pol, none) = (pol, none)
  finish_fast mode key (pol, some e) = elim (after_normalize mode key pol) [
    | none ↦ (zero_policy, some (no_policy key (as_error e)))
    | some q ↦ (q, none)
  ]

  unfoldable pub policy_with_key : PolicyKey → EffectivePolicy F → EffectivePolicy F
  unfolding or_default_policy
  policy_with_key key pol = record (or_default_policy key pol) { key = key }

  -- After an error `e` of the provider.
  unfoldable pub fast_or :
      FailureMode → PolicyKey → Err → Option (EffectivePolicy F) → EffectivePolicy F × Option Err
  fast_or mode key e none = (zero_policy, some (no_policy key e))
  fast_or mode key e (some q) = finish_fast mode key (normalize (policy_with_key key q))

  unfoldable pub resolve_fast_from :
      FailureMode → PolicyKey → EffectivePolicy F → Option Err → EffectivePolicy F × Option Err
  resolve_fast_from mode key pol none = finish_fast mode key (normalize (policy_with_key key pol))
  resolve_fast_from mode key pol (some e) =
      fast_or mode key e (after_provider mode key pol (some e))

  -- The first `switch` of `resolvePolicyWithAttributes`.
  unfoldable pub after_provider_full :
      FailureMode → PolicyKey → EffectivePolicy F → Err → Option (EffectivePolicy F)
  after_provider_full mode_unknown key pol e = some pol
  after_provider_full mode_deny key pol e = none
  after_provider_full mode_allow key pol e = some (bare_policy key (pos 1))
  after_provider_full mode_fallback key pol e =
      some (if is_zero_effective_policy pol then default_policy_for key else pol)
  after_provider_full mode_allow_unsafe key pol e = some pol

  -- From the zero test to the call of `Normalize` there.
  unfoldable pub policy_with_key_full : PolicyKey → EffectivePolicy F → EffectivePolicy F
  policy_with_key_full key pol =
      let pol' : EffectivePolicy F =
        if is_zero_effective_policy pol then default_policy_for key else pol in
      record (pol') { key = key }

  -- The second `switch` there.
  unfoldable pub after_normalize_full :
      FailureMode → PolicyKey → EffectivePolicy F → Option (EffectivePolicy F)
  after_normalize_full mode_unknown key pol = some pol
  after_normalize_full mode_deny key pol = none
  after_normalize_full mode_allow key pol = some (normalize (bare_policy key (pos 1))).0
  after_normalize_full mode_fallback key pol = some (normalize (default_policy_for key)).0
  after_normalize_full mode_allow_unsafe key pol = some pol

  module _ {V W B C : Type 0} (env : Env F V W B C) (cfg : Config B C) where
    -- From the error of `Normalize` to the end of `resolvePolicyWithAttributes`.
    unfoldable pub finish_full :
        PolicyKey
        → EffectivePolicy F × Option NormalizeError
        → EffectivePolicy F × List (String × String) × Option Err
    finish_full key (pol, none) = (pol, [], none)
    finish_full key (pol, some e) = elim (after_normalize_full cfg.missing_policy_mode key pol) [
      | none ↦ (zero_policy, [], some (no_policy key (as_error e)))
      | some q ↦ (
        q,
        ("policy_error", append "normalization_failed: " (env.error_text (as_error e))) ∷ [],
        none,
      )
    ]

    unfoldable pub full_or :
        PolicyKey
        → Err
        → Option (EffectivePolicy F)
        → EffectivePolicy F × List (String × String) × Option Err
    full_or key e none = (zero_policy, [], some (no_policy key e))
    full_or key e (some q) = finish_full key (normalize (policy_with_key_full key q))

    unfoldable pub resolve_full_from :
        PolicyKey
        → EffectivePolicy F
        → Option Err
        → EffectivePolicy F × List (String × String) × Option Err
    resolve_full_from key pol none = finish_full key (normalize (policy_with_key_full key pol))
    resolve_full_from key pol (some e) =
        full_or key e (after_provider_full cfg.missing_policy_mode key pol e)

    -- The call of the provider in `resolvePolicyFast`; where a panic is recovered the policy is the zero value.
    unfoldable pub ask_provider : PolicyKey → M W (EffectivePolicy F × Option Err)
    ask_provider key =
        recovering cfg.recover_panics
          (λ v. pure (zero_policy, some (panic_error "policy_provider" key v)))
          (risky (env.get_policy key))

    -- The call of the provider in `resolvePolicyWithAttributes`.
    unfoldable pub ask_provider_full : PolicyKey → M W (EffectivePolicy F × Option Err)
    ask_provider_full key =
        if cfg.recover_panics
        then recovering true (λ v. pure (zero_policy, some (panic_error "policy_provider" key v)))
            (risky (env.get_policy key))
        else risky (env.get_policy key)

    abbrev pub answer_fast :
        PolicyKey → EffectivePolicy F × Option Err → M W (EffectivePolicy F × Option Err)
    answer_fast key answer = pure (resolve_fast_from cfg.missing_policy_mode key answer.0 answer.1)

    unfoldable pub resolve_policy_fast : PolicyKey → M W (EffectivePolicy F × Option Err)
    resolve_policy_fast key = ask_provider key >>= answer_fast key

    abbrev pub answer_full :
        PolicyKey
        → EffectivePolicy F × Option Err
        → M W (EffectivePolicy F × List (String × String) × Option Err)
    answer_full key answer = pure (resolve_full_from key answer.0 answer.1)

    unfoldable pub resolve_policy_with_attributes :
        PolicyKey → M W (EffectivePolicy F × List (String × String) × Option Err)
    resolve_policy_with_attributes key = ask_provider_full key >>= answer_full key

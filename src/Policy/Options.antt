-- ===== src/Policy/Options.antt =====
-- policy/options.go: the options, the presets, and the constructors that apply them. An option is a
-- function on policies; Go's mutates the policy that it is given.
pub mod Presets
use recourse.Common.{String, Bool, true, List, [], ◌∷◌, if◌then◌else◌, Option, none, some}
use recourse.Common.Int.{ℤ, pos, ◌==ℤ◌}
use recourse.Common.Float.{Float}
use recourse.Policy.{
  Duration, PolicyKey, BudgetRef, RetryPolicy, HedgePolicy, EffectivePolicy, NormalizeError,
}
use recourse.Policy.Key.{parse_key}
use recourse.Policy.Defaults.{default_policy_for}
use recourse.Policy.Normalize.{normalize}

abbrev pub PolicyOption : Type 0 → Type 0
PolicyOption F = EffectivePolicy F → EffectivePolicy F

module _ {F : Type 0} ⦃fl : Float F⦄ where
  -- `for _, opt := range opts { opt(&p) }`
  abbrev pub apply_options : List (PolicyOption F) → EffectivePolicy F → EffectivePolicy F
  apply_options [] p = p
  apply_options (opt ∷ opts) p = apply_options opts (opt p)

  -- The fallback of `NewFromKey` where `Normalize` fails.
  pub or_default : PolicyKey → EffectivePolicy F × Option NormalizeError → EffectivePolicy F
  or_default key (p, none) = p
  or_default key (p, some e) = (normalize (default_policy_for key)).0

  unfoldable pub new_from_key : PolicyKey → List (PolicyOption F) → EffectivePolicy F
  unfolding or_default
  new_from_key key opts = or_default key (normalize (apply_options opts (default_policy_for key)))

  -- `New`.
  unfoldable pub new_policy : String → List (PolicyOption F) → EffectivePolicy F
  unfolding new_from_key
  new_policy key opts = new_from_key (parse_key key) opts

  unfoldable pub max_attempts : ℤ → PolicyOption F
  max_attempts n p = record p { retry = record (p.retry) { max_attempts = n } }

  unfoldable pub initial_backoff : Duration → PolicyOption F
  initial_backoff d p = record p { retry = record (p.retry) { initial_backoff = d } }

  unfoldable pub max_backoff : Duration → PolicyOption F
  max_backoff d p = record p { retry = record (p.retry) { max_backoff = d } }

  unfoldable pub backoff_multiplier : F → PolicyOption F
  backoff_multiplier m p = record p { retry = record (p.retry) { backoff_multiplier = m } }

  unfoldable pub backoff : Duration → Duration → F → PolicyOption F
  backoff initial max multiplier p = record p {
    retry = record (p.retry) {
      initial_backoff = initial;
      max_backoff = max;
      backoff_multiplier = multiplier;
    };
  }

  unfoldable pub jitter : String → PolicyOption F
  jitter j p = record p { retry = record (p.retry) { jitter = j } }

  unfoldable pub per_attempt_timeout : Duration → PolicyOption F
  per_attempt_timeout d p = record p { retry = record (p.retry) { timeout_per_attempt = d } }

  unfoldable pub overall_timeout : Duration → PolicyOption F
  overall_timeout d p = record p { retry = record (p.retry) { overall_timeout = d } }

  unfoldable pub classifier : String → PolicyOption F
  classifier name p = record p { retry = record (p.retry) { classifier_name = name } }

  unfoldable pub budget : String → PolicyOption F
  budget name p = record p {
    retry = record (p.retry) { budget = record { name = name; cost = pos 1 } };
  }

  unfoldable pub budget_with_cost : String → ℤ → PolicyOption F
  budget_with_cost name cost p = record p {
    retry = record (p.retry) { budget = record { name = name; cost = cost } };
  }

  unfoldable pub policy_id : String → PolicyOption F
  policy_id id p = record p { id = id }

  unfoldable pub enable_hedging : PolicyOption F
  enable_hedging p = record p {
    hedge = record (p.hedge) {
      enabled = true;
      max_hedges = if p.hedge.max_hedges ==ℤ pos 0 then pos 2 else p.hedge.max_hedges;
      hedge_delay = if p.hedge.hedge_delay ==ℤ pos 0 then pos 200_000_000 else p.hedge.hedge_delay;
    };
  }

  unfoldable pub hedge_max_attempts : ℤ → PolicyOption F
  hedge_max_attempts n p = record p { hedge = record (p.hedge) { enabled = true; max_hedges = n } }

  unfoldable pub hedge_delay : Duration → PolicyOption F
  hedge_delay d p = record p { hedge = record (p.hedge) { enabled = true; hedge_delay = d } }

  unfoldable pub hedge_trigger : String → PolicyOption F
  hedge_trigger name p = record p {
    hedge = record (p.hedge) { enabled = true; trigger_name = name };
  }

  unfoldable pub hedge_budget : String → PolicyOption F
  hedge_budget name p = record p {
    hedge = record (p.hedge) { budget = record { name = name; cost = pos 1 } };
  }

  unfoldable pub hedge_cancel_on_terminal : Bool → PolicyOption F
  hedge_cancel_on_terminal cancel p = record p {
    hedge = record (p.hedge) { cancel_on_first_terminal = cancel };
  }

  unfoldable pub exponential_backoff : Duration → Duration → PolicyOption F
  exponential_backoff initial max p = record p {
    retry = record (p.retry) {
      initial_backoff = initial;
      max_backoff = max;
      backoff_multiplier = fl.of_ℤ (pos 2);
      jitter = "equal";
    };
  }

  unfoldable pub constant_backoff : Duration → PolicyOption F
  constant_backoff delay p = record p {
    retry = record (p.retry) {
      initial_backoff = delay;
      max_backoff = delay;
      backoff_multiplier = fl.of_ℤ (pos 1);
      jitter = "none";
    };
  }

  unfoldable pub http_defaults : PolicyOption F
  http_defaults p = record p {
    retry = record (p.retry) {
      max_attempts = pos 3;
      initial_backoff = pos 100_000_000;
      max_backoff = pos 2_000_000_000;
      backoff_multiplier = fl.of_ℤ (pos 2);
      jitter = "full";
      timeout_per_attempt = pos 10_000_000_000;
      overall_timeout = pos 30_000_000_000;
      classifier_name = "http";
    };
  }

  unfoldable pub database_defaults : PolicyOption F
  database_defaults p = record p {
    retry = record (p.retry) {
      max_attempts = pos 3;
      initial_backoff = pos 100_000_000;
      max_backoff = pos 5_000_000_000;
      backoff_multiplier = fl.of_ℤ (pos 2);
      jitter = "equal";
      timeout_per_attempt = pos 30_000_000_000;
      overall_timeout = pos 60_000_000_000;
    };
  }

  unfoldable pub background_job_defaults : PolicyOption F
  background_job_defaults p = record p {
    retry = record (p.retry) {
      max_attempts = pos 5;
      initial_backoff = pos 1_000_000_000;
      max_backoff = pos 30_000_000_000;
      backoff_multiplier = fl.of_ℤ (pos 2);
      jitter = "full";
      overall_timeout = pos 300_000_000_000;
    };
  }

  unfoldable pub low_latency_defaults : PolicyOption F
  low_latency_defaults p = record p {
    retry = record (p.retry) {
      max_attempts = pos 2;
      initial_backoff = pos 10_000_000;
      max_backoff = pos 50_000_000;
      backoff_multiplier = fl.of_ℤ (pos 2);
      jitter = "equal";
      timeout_per_attempt = pos 500_000_000;
      overall_timeout = pos 1_000_000_000;
    };
    hedge = record (p.hedge) { enabled = true; max_hedges = pos 2; hedge_delay = pos 100_000_000 };
  }

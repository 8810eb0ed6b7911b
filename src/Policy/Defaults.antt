-- ===== src/Policy/Defaults.antt =====
-- `DefaultPolicyFor` of policy/schema.go, the limits, and the zero policy.
use recourse.Common.{Bool, false, [], ◌&&◌, not}
use recourse.Common.Int.{ℤ, pos, ◌==ℤ◌}
use recourse.Common.Text.{str_eq}
use recourse.Common.Float.{Float}
use recourse.Policy.{PolicyKey, BudgetRef, RetryPolicy, HedgePolicy, EffectivePolicy}

abbrev pub max_retry_attempts : ℤ
max_retry_attempts = pos 10

abbrev pub max_hedges : ℤ
max_hedges = pos 3

abbrev pub min_backoff_floor : ℤ
min_backoff_floor = pos 1_000_000

abbrev pub min_hedge_delay_floor : ℤ
min_hedge_delay_floor = pos 10_000_000

abbrev pub max_backoff_ceiling : ℤ
max_backoff_ceiling = pos 30_000_000_000

abbrev pub min_timeout_floor : ℤ
min_timeout_floor = pos 1_000_000

abbrev pub min_circuit_threshold : ℤ
min_circuit_threshold = pos 1

abbrev pub min_circuit_cooldown : ℤ
min_circuit_cooldown = pos 100_000_000

abbrev pub no_budget : BudgetRef
no_budget = record { name = ""; cost = pos 1 }

-- `pol.Hedge == (HedgePolicy{})`, part by part.
abbrev is_zero_budget : BudgetRef → Bool
is_zero_budget b = str_eq b.name "" && b.cost ==ℤ pos 0

abbrev is_zero_hedge : HedgePolicy → Bool
is_zero_hedge h =
    not h.enabled
    && h.max_hedges ==ℤ pos 0
    && h.hedge_delay ==ℤ pos 0
    && str_eq h.trigger_name ""
    && not h.cancel_on_first_terminal
    && is_zero_budget h.budget

module _ {F : Type 0} ⦃fl : Float F⦄ where
  unfoldable pub default_policy_for : PolicyKey → EffectivePolicy F
  default_policy_for key = record {
    key = key;
    id = "";
    retry = record {
      max_attempts = pos 3;
      initial_backoff = pos 10_000_000;
      max_backoff = pos 250_000_000;
      backoff_multiplier = fl.of_ℤ (pos 2);
      jitter = "none";
      timeout_per_attempt = pos 0;
      overall_timeout = pos 0;
      classifier_name = "";
      budget = no_budget;
    };
    hedge = record {
      enabled = false;
      max_hedges = pos 0;
      hedge_delay = pos 0;
      trigger_name = "";
      cancel_on_first_terminal = false;
      budget = no_budget;
    };
    circuit = record { enabled = false; threshold = pos 0; cooldown = pos 0 };
    meta = record {
      source = "default";
      normalization = record { changed = false; changed_fields = [] };
    };
  }

  -- The zero value of `EffectivePolicy`, with key `k` and `n` attempts.
  unfoldable pub bare_policy : PolicyKey → ℤ → EffectivePolicy F
  bare_policy k n = record {
    key = k;
    id = "";
    retry = record {
      max_attempts = n;
      initial_backoff = pos 0;
      max_backoff = pos 0;
      backoff_multiplier = fl.of_ℤ (pos 0);
      jitter = "";
      timeout_per_attempt = pos 0;
      overall_timeout = pos 0;
      classifier_name = "";
      budget = record { name = ""; cost = pos 0 };
    };
    hedge = record {
      enabled = false;
      max_hedges = pos 0;
      hedge_delay = pos 0;
      trigger_name = "";
      cancel_on_first_terminal = false;
      budget = record { name = ""; cost = pos 0 };
    };
    circuit = record { enabled = false; threshold = pos 0; cooldown = pos 0 };
    meta = record { source = ""; normalization = record { changed = false; changed_fields = [] } };
  }

  -- `pol.Retry == (RetryPolicy{})`.
  abbrev is_zero_retry : RetryPolicy F → Bool
  is_zero_retry r =
      r.max_attempts ==ℤ pos 0
      && r.initial_backoff ==ℤ pos 0
      && r.max_backoff ==ℤ pos 0
      && fl.eq r.backoff_multiplier (fl.of_ℤ (pos 0))
      && str_eq r.jitter ""
      && r.timeout_per_attempt ==ℤ pos 0
      && r.overall_timeout ==ℤ pos 0
      && str_eq r.classifier_name ""
      && is_zero_budget r.budget

  -- `isZeroEffectivePolicy`, declared alike in retry/executor.go and controlplane/provider.go.
  unfoldable pub is_zero_effective_policy : EffectivePolicy F → Bool
  is_zero_effective_policy p =
      str_eq p.key.namespace ""
      && str_eq p.key.name ""
      && str_eq p.id ""
      && is_zero_retry p.retry
      && is_zero_hedge p.hedge

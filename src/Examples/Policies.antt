-- ===== src/Examples/Policies.antt =====
-- policy/schema.go, policy/options.go and policy/key.go on concrete policies.
use recourse.Common.{ℕ, true, ◌≡◌, refl, ◌↔◌, ◌⊎◌, [], ◌∷◌, none, some, arith}
use recourse.Common.Int.{pos, negsuc}
use recourse.Common.Text.{trim_space, starts_plain, ends_plain, is_space}
use recourse.Policy.{EffectivePolicy}
use recourse.Policy.Key.RoundTrip.{is_plain, is_dotless, parse_key-to_string}
use recourse.Policy.Key.{parse_key, to_string}
use recourse.Policy.Defaults.{default_policy_for}
use recourse.Policy.Normalize.{normalize}
use recourse.Policy.Normalize.Bounds.{IsJitter, IsNormalized, normalize-IsNormalized}
use recourse.Policy.Normalize.Stable.{normalize_fixed}
use recourse.Policy.Normalize.Edges.{
  normalize_error, normalize-circuit_skipped, normalize-max_backoff_unbounded,
}
use recourse.Policy.Options.{new_from_key, max_attempts}
use recourse.Policy.Options.Presets.{new_from_key-IsNormalized}
use recourse.Examples.{thousandths, exact, user_key}

parse_key_dotted : parse_key " users . get.one " ≡ record { namespace = "users"; name = "get.one" }
unfolding parse_key trim_space
parse_key_dotted = refl

to_string_dotted : to_string user_key ≡ "users.get"
unfolding to_string
to_string_dotted = refl

parse_key-to_string_example : parse_key (to_string user_key) ≡ user_key
unfolding is_plain starts_plain ends_plain is_space is_dotless
parse_key-to_string_example = parse_key-to_string user_key refl refl refl

-- A policy that asks for too many attempts and too long a first backoff, with the circuit on.
abbrev eager : EffectivePolicy ℕ
eager = record (default_policy_for user_key) {
  retry = record ((default_policy_for {F = ℕ} user_key).retry) {
    max_attempts = pos 99;
    initial_backoff = pos 60_000_000_000;
  };
  circuit = record { enabled = true; threshold = pos 0; cooldown = pos 1 };
}

abbrev plain : EffectivePolicy ℕ
plain = default_policy_for user_key

normalize-eager : (normalize eager).1 ≡ none
unfolding normalize default_policy_for
normalize-eager = refl

normalize-IsNormalized_example : IsNormalized (normalize eager).0
normalize-IsNormalized_example = normalize-IsNormalized exact eager normalize-eager

plain-IsNormalized : IsNormalized plain
unfolding default_policy_for
plain-IsNormalized = ground arith

normalize_fixed_example : normalize plain ≡ (plain, none)
unfolding default_policy_for
normalize_fixed_example = normalize_fixed exact plain plain-IsNormalized (omega arith)

normalize_error_example :
    (((normalize eager).1 ≡ none) ↔ ((eager.retry.jitter ≡ "") ⊎ IsJitter eager.retry.jitter))
    × (((normalize eager).1 ≡ none)
        ⊎ ((normalize eager).1
            ≡ some (record { field = "retry.jitter"; value = eager.retry.jitter })))
normalize_error_example = normalize_error eager

normalize-circuit_skipped_example :
    (normalize eager).0.circuit ≡ record { enabled = true; threshold = pos 0; cooldown = pos 1 }
unfolding default_policy_for
normalize-circuit_skipped_example = normalize-circuit_skipped eager refl normalize-eager

normalize-max_backoff_unbounded_example :
    ((normalize eager).0.retry.initial_backoff ≡ pos 60_000_000_000)
    × ((normalize eager).0.retry.max_backoff ≡ pos 60_000_000_000)
unfolding default_policy_for
normalize-max_backoff_unbounded_example =
    normalize-max_backoff_unbounded eager (omega arith) normalize-eager

new_from_key-IsNormalized_example :
    IsNormalized {F = ℕ} (new_from_key user_key (max_attempts (negsuc 4) ∷ []))
new_from_key-IsNormalized_example =
    new_from_key-IsNormalized exact user_key (max_attempts (negsuc 4) ∷ [])

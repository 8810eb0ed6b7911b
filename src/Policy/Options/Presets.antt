-- ===== src/Policy/Options/Presets.antt =====
-- What `New` and `NewFromKey` promise: a policy in range whatever the options do, and presets whose
-- settings come out as they are written.
use recourse.Common.{◌≡◌, refl, List, [], ◌∷◌, Option, none, some, arith}
use recourse.Common.Int.{pos, ◌≤ℤ◌}
use recourse.Common.Float.{Float, IsExact}
use recourse.Policy.{PolicyKey, EffectivePolicy, NormalizeError}
use recourse.Policy.Defaults.{default_policy_for}
use recourse.Policy.Normalize.{normalize}
use recourse.Policy.Normalize.Bounds.{IsNormalized, normalize-IsNormalized}
use recourse.Policy.Normalize.Stable.{normalize_fixed}
use recourse.Policy.Options.{
  PolicyOption, apply_options, or_default, new_from_key, http_defaults, database_defaults,
  background_job_defaults, low_latency_defaults,
}

module _ {F : Type 0} ⦃fl : Float F⦄ (exact : IsExact F) where
  default-IsNormalized : (key : PolicyKey) → IsNormalized {F = F} (default_policy_for key)
  unfolding default_policy_for
  default-IsNormalized key = ground (
    arith,
    exact.lt-of_ℤ 2 1 (omega arith) (omega arith),
    exact.lt-of_ℤ 10 2 (omega arith) (omega arith),
  )

  or_default-IsNormalized :
      (key : PolicyKey) (p : EffectivePolicy F) (e : Option NormalizeError)
      → (e ≡ none → IsNormalized p)
      → IsNormalized (or_default key (p, e))
  unfolding or_default
  or_default-IsNormalized key p none h = h refl
  or_default-IsNormalized key p (some e) h =
      rw
        (
          normalize_fixed exact (default_policy_for key) (default-IsNormalized key)
              (unfold default_policy_for in omega arith),
          or_default,
        )
        (default-IsNormalized key)

  -- `NewFromKey` returns a policy in range for any key and any options, also options that write
  -- arbitrary values: a policy that cannot be normalised is replaced by the default.
  pub new_from_key-IsNormalized :
      (key : PolicyKey) (opts : List (PolicyOption F))
      → IsNormalized {F = F} (new_from_key key opts)
  unfolding new_from_key
  new_from_key-IsNormalized key opts =
      let p = apply_options opts (default_policy_for key) in
      or_default-IsNormalized key (normalize p).0 (normalize p).1 (normalize-IsNormalized exact p)

  new_from_key_fixed :
      (key : PolicyKey) (opts : List (PolicyOption F)) (q : EffectivePolicy F)
      → apply_options opts (default_policy_for key) ≡ q
      → IsNormalized q
      → q.retry.max_backoff ≤ℤ pos 30_000_000_000
      → new_from_key key opts ≡ q
  unfolding new_from_key or_default
  new_from_key_fixed key opts q e n h = rw (e, normalize_fixed exact q n h) refl

  -- A policy made from one of the four presets is the default policy with that preset's settings:
  -- normalisation replaces none of them.
  pub presets_unchanged :
      (key : PolicyKey)
      → (new_from_key {F = F} key (http_defaults ∷ []) ≡ http_defaults (default_policy_for key))
        × (new_from_key {F = F} key (database_defaults ∷ [])
            ≡ database_defaults (default_policy_for key))
        × (new_from_key {F = F} key (background_job_defaults ∷ [])
            ≡ background_job_defaults (default_policy_for key))
        × (new_from_key {F = F} key (low_latency_defaults ∷ [])
            ≡ low_latency_defaults (default_policy_for key))
  unfolding default_policy_for http_defaults database_defaults background_job_defaults
      low_latency_defaults
  presets_unchanged key =
      let low = exact.lt-of_ℤ 2 1 (omega arith) (omega arith) in
      let high = exact.lt-of_ℤ 10 2 (omega arith) (omega arith) in
      (
        new_from_key_fixed key (http_defaults ∷ []) (http_defaults (default_policy_for key)) refl
            (ground (arith, low, high)) (omega arith),
        new_from_key_fixed key (database_defaults ∷ []) (database_defaults (default_policy_for key))
            refl (ground (arith, low, high)) (omega arith),
        new_from_key_fixed key (background_job_defaults ∷ [])
            (background_job_defaults (default_policy_for key)) refl (ground (arith, low, high))
            (omega arith),
        new_from_key_fixed key (low_latency_defaults ∷ [])
            (low_latency_defaults (default_policy_for key)) refl (ground (arith, low, high))
            (omega arith),
      )

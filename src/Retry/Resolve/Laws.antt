-- ===== src/Retry/Resolve/Laws.antt =====
-- What the two resolutions of a policy return.
use recourse.Common.{
  String, Bool, true, false, ◌≡◌, refl, ap, ◌∙◌, inl, inr, List, Option, none, some, arith,
}
use recourse.Common.Int.{pos, ◌≤ℤ◌}
use recourse.Common.Float.{Float, IsExact}
use recourse.Policy.{PolicyKey, EffectivePolicy, NormalizeError}
use recourse.Policy.Defaults.{default_policy_for, bare_policy}
use recourse.Policy.Normalize.{normalize}
use recourse.Policy.Normalize.Bounds.{IsNormalized, normalize-IsNormalized}
use recourse.Policy.Normalize.Attempts.{normalize-attempts_high}
use recourse.Policy.Normalize.Edges.{normalize_error}
use recourse.Errors.{Err}
use recourse.Retry.{
  FailureMode, mode_unknown, mode_deny, mode_allow, mode_fallback, mode_allow_unsafe, Env, Config,
  Exit, returned, panicked, St, M, ◌>>=◌,
}
use recourse.Retry.Resolve.{
  after_provider, after_normalize, finish_fast, finish_full, fast_or, full_or, policy_with_key,
  resolve_fast_from, resolve_full_from, answer_fast, answer_full, ask_provider, ask_provider_full,
  after_provider_full, after_normalize_full, policy_with_key_full, resolve_policy_fast,
  resolve_policy_with_attributes,
}

-- The modes in which a policy error is answered by a policy of the program's own, or by an error.
abbrev pub is_guarded : FailureMode → Bool
is_guarded mode_deny = true
is_guarded mode_allow = true
is_guarded mode_fallback = true
is_guarded mode_allow_unsafe = false
is_guarded mode_unknown = false

module _ {F : Type 0} ⦃fl : Float F⦄ where
  finish-attempts :
      (mode : FailureMode) (key : PolicyKey) (pol : EffectivePolicy F) (e : Option NormalizeError)
      → pol.retry.max_attempts ≤ℤ pos 10
      → (finish_fast mode key (pol, e)).0.retry.max_attempts ≤ℤ pos 10
  unfolding finish_fast bare_policy after_normalize
  finish-attempts mode key pol none h = h
  finish-attempts mode_deny key pol (some e) h = omega arith
  finish-attempts mode_allow key pol (some e) h =
      normalize-attempts_high {F = F} (bare_policy key (pos 1))
  finish-attempts mode_fallback key pol (some e) h =
      normalize-attempts_high {F = F} (default_policy_for key)
  finish-attempts mode_allow_unsafe key pol (some e) h = h
  finish-attempts mode_unknown key pol (some e) h = h

  at_key-attempts :
      (mode : FailureMode) (key : PolicyKey) (pol : EffectivePolicy F)
      → (finish_fast mode key (normalize (policy_with_key key pol))).0.retry.max_attempts ≤ℤ pos 10
  at_key-attempts mode key pol =
      let (q, e) = normalize (policy_with_key key pol) in
      finish-attempts mode key q e (normalize-attempts_high (policy_with_key key pol))

  or-attempts :
      (mode : FailureMode) (key : PolicyKey) (e : Err) (o : Option (EffectivePolicy F))
      → (fast_or mode key e o).0.retry.max_attempts ≤ℤ pos 10
  unfolding fast_or bare_policy
  or-attempts mode key e none = omega arith
  or-attempts mode key e (some q) = at_key-attempts mode key q

  -- Whatever the provider answers, the resolved policy asks for at most ten attempts.
  pub resolve_fast-attempts :
      (mode : FailureMode) (key : PolicyKey) (pol : EffectivePolicy F) (e : Option Err)
      → (resolve_fast_from mode key pol e).0.retry.max_attempts ≤ℤ pos 10
  unfolding resolve_fast_from bare_policy
  resolve_fast-attempts mode key pol none = at_key-attempts mode key pol
  resolve_fast-attempts mode key pol (some e) =
      or-attempts mode key e (after_provider mode key pol (some e))

  -- The key of a policy passes through `Normalize`, but for the zero policy next to an error.
  abbrev pub IsSound : PolicyKey → EffectivePolicy F × Option Err → Type 0
  IsSound key (pol, none) = IsNormalized pol
  IsSound key (pol, some e) = Unit

  module _ (exact : IsExact F) where
    normalize_default : (key : PolicyKey) → (normalize (default_policy_for {F = F} key)).1 ≡ none
    normalize_default key =
        (normalize_error (default_policy_for key)).0.1 (unfold default_policy_for in inr (inl refl))

    normalize_bare : (key : PolicyKey) → (normalize (bare_policy {F = F} key (pos 1))).1 ≡ none
    normalize_bare key =
        (normalize_error (bare_policy key (pos 1))).0.1 (unfold bare_policy in inl refl)

    finish-IsSound :
        (mode : FailureMode) (key : PolicyKey) (pol : EffectivePolicy F) (e : Option NormalizeError)
        → is_guarded mode ≡ true
        → (e ≡ none → IsNormalized pol)
        → IsSound key (finish_fast mode key (pol, e))
    unfolding finish_fast after_normalize
    finish-IsSound mode key pol none g h = h refl
    finish-IsSound mode_deny key pol (some e) g h = tt
    finish-IsSound mode_allow key pol (some e) g h =
        normalize-IsNormalized exact (bare_policy key (pos 1)) (normalize_bare key)
    finish-IsSound mode_fallback key pol (some e) g h =
        normalize-IsNormalized exact (default_policy_for key) (normalize_default key)
    finish-IsSound mode_allow_unsafe key pol (some e) g h = cc
    finish-IsSound mode_unknown key pol (some e) g h = cc

    at_key-IsSound :
        (mode : FailureMode) (key : PolicyKey) (pol : EffectivePolicy F)
        → is_guarded mode ≡ true
        → IsSound key (finish_fast mode key (normalize (policy_with_key key pol)))
    at_key-IsSound mode key pol g =
        let (q, e) = normalize (policy_with_key key pol) in
        finish-IsSound mode key q e g (normalize-IsNormalized exact (policy_with_key key pol))

    or-IsSound :
        (mode : FailureMode) (key : PolicyKey) (e : Err) (o : Option (EffectivePolicy F))
        → is_guarded mode ≡ true
        → IsSound key (fast_or mode key e o)
    unfolding fast_or
    or-IsSound mode key e none g = tt
    or-IsSound mode key e (some q) g = at_key-IsSound mode key q g

    -- In the modes deny, allow and fallback, a resolution that returns no error returns a policy in
    -- range, whatever policy and error the provider gave.
    pub resolve_fast-IsNormalized :
        (mode : FailureMode) (key : PolicyKey) (pol : EffectivePolicy F) (e : Option Err)
        → is_guarded mode ≡ true
        → IsSound key (resolve_fast_from mode key pol e)
    unfolding resolve_fast_from
    resolve_fast-IsNormalized mode key pol none g = at_key-IsSound mode key pol g
    resolve_fast-IsNormalized mode key pol (some e) g =
        or-IsSound mode key e (after_provider mode key pol (some e)) g

  module _ {V W B C : Type 0} (env : Env F V W B C) (cfg : Config B C) where
    -- The result of the full resolution without its attributes.
    abbrev pub bare_result :
        Exit (EffectivePolicy F × List (String × String) × Option Err) × St W
        → Exit (EffectivePolicy F × Option Err) × St W
    bare_result (returned (pol, attrs, e), s) = (returned (pol, e), s)
    bare_result (panicked v, s) = (panicked v, s)

    provider_agrees :
        (mode : FailureMode) (key : PolicyKey) (pol : EffectivePolicy F) (e : Err)
        → after_provider_full mode key pol e ≡ after_provider mode key pol (some e)
    unfolding after_provider_full after_provider
    provider_agrees mode_unknown key pol e = refl
    provider_agrees mode_deny key pol e = refl
    provider_agrees mode_allow key pol e = refl
    provider_agrees mode_fallback key pol e = refl
    provider_agrees mode_allow_unsafe key pol e = refl

    normalize_agrees :
        (mode : FailureMode) (key : PolicyKey) (pol : EffectivePolicy F)
        → after_normalize_full mode key pol ≡ after_normalize mode key pol
    unfolding after_normalize_full after_normalize
    normalize_agrees mode_unknown key pol = refl
    normalize_agrees mode_deny key pol = refl
    normalize_agrees mode_allow key pol = refl
    normalize_agrees mode_fallback key pol = refl
    normalize_agrees mode_allow_unsafe key pol = refl

    with_key_agrees :
        (key : PolicyKey) (pol : EffectivePolicy F)
        → policy_with_key_full key pol ≡ policy_with_key key pol
    unfolding policy_with_key_full policy_with_key
    with_key_agrees key pol = refl

    finish_agrees :
        (key : PolicyKey) (pol : EffectivePolicy F) (e : Option NormalizeError)
        → ((finish_full env cfg key (pol, e)).0, (finish_full env cfg key (pol, e)).2)
          ≡ finish_fast cfg.missing_policy_mode key (pol, e)
    unfolding finish_full finish_fast
    finish_agrees key pol none = refl
    finish_agrees key pol (some e) =
        ground (arith, normalize_agrees cfg.missing_policy_mode key pol)

    or_agrees :
        (key : PolicyKey) (e : Err) (o : Option (EffectivePolicy F))
        → ((full_or env cfg key e o).0, (full_or env cfg key e o).2)
          ≡ fast_or cfg.missing_policy_mode key e o
    unfolding full_or fast_or
    or_agrees key e none = refl
    or_agrees key e (some q) =
        let (p, n) = normalize (policy_with_key key q) in
        rw (with_key_agrees key q) (finish_agrees key p n)

    pub from_agrees :
        (key : PolicyKey) (pol : EffectivePolicy F) (e : Option Err)
        → ((resolve_full_from env cfg key pol e).0, (resolve_full_from env cfg key pol e).2)
          ≡ resolve_fast_from cfg.missing_policy_mode key pol e
    unfolding resolve_full_from resolve_fast_from
    from_agrees key pol none =
        let (q, n) = normalize (policy_with_key key pol) in
        rw (with_key_agrees key pol) (finish_agrees key q n)
    from_agrees key pol (some e) =
        rw (provider_agrees cfg.missing_policy_mode key pol e)
          (or_agrees key e (after_provider cfg.missing_policy_mode key pol (some e)))

    answers_agree :
        (key : PolicyKey) (s : St W) (r : Exit (EffectivePolicy F × Option Err)) (s' : St W)
        → let asked : M W (EffectivePolicy F × Option Err) = λ u. (r, s') in
          bare_result ((asked >>= answer_full env cfg key) s)
          ≡ (asked >>= answer_fast env cfg key) s
    answers_agree key s (returned (pol, e)) s' =
        ap (λ (x : EffectivePolicy F × Option Err). (returned x, s')) (from_agrees key pol e)
    answers_agree key s (panicked v) s' = refl

    pub asks_agree :
        (key : PolicyKey) (s : St W) → ask_provider_full env cfg key s ≡ ask_provider env cfg key s
    unfolding ask_provider_full ask_provider
    asks_agree key s = ground arith

    -- Both resolutions leave the world and the log as one call of the provider leaves them.
    asked_once :
        (key : PolicyKey) (s : St W)
        → (resolve_policy_fast env cfg key s).1
          ≡ record s { world = (env.get_policy key s.world).1 }
    unfolding resolve_policy_fast ask_provider
    asked_once key s = ground arith

    -- The fast and the full resolution return the same policy and error, or the same panic: they
    -- differ in the attributes alone. Each calls the provider once and has no other effect: the world
    -- after it is the one that a single call leaves, and nothing is logged.
    pub resolutions_agree :
        (key : PolicyKey) (s : St W)
        → (bare_result (resolve_policy_with_attributes env cfg key s)
            ≡ resolve_policy_fast env cfg key s)
          × ((resolve_policy_fast env cfg key s).1
              ≡ record s { world = (env.get_policy key s.world).1 })
    unfolding resolve_policy_with_attributes resolve_policy_fast
    resolutions_agree key s = (
      ap
            (λ (r : Exit (EffectivePolicy F × Option Err) × St W).
              let asked : M W (EffectivePolicy F × Option Err) = λ u. r in
              bare_result ((asked >>= answer_full env cfg key) s))
            (asks_agree key s)
          ∙ answers_agree key s (ask_provider env cfg key s).0 (ask_provider env cfg key s).1,
      asked_once key s,
    )

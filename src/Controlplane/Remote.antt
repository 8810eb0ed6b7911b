-- ===== src/Controlplane/Remote.antt =====
-- controlplane/remote.go: the provider that fetches policies from a source and caches them.
pub mod Soundness
use recourse.Common.{
  Bool, true, false, ◌≡◌, refl, List, [], ◌∷◌, Option, none, some, if◌then◌else◌, arith,
}
use recourse.Common.Int.{ℤ, pos, ◌+ℤ◌, ◌≤ℤ◌}
use recourse.Common.Text.{is_empty}
use recourse.Common.Float.{Float, IsExact}
use recourse.Common.Dict.{lookup, insert, lookup-insert}
use recourse.Policy.{PolicyKey, EffectivePolicy, NormalizeError}
use recourse.Policy.Key.{key_eq}
use recourse.Policy.Normalize.{normalize}
use recourse.Policy.Normalize.Bounds.{IsNormalized, normalize-IsNormalized}
use recourse.Errors.{Err, sentinel, policy_not_found, errors_is, invalid_policy}
use recourse.Controlplane.Cache.{
  Entry, Cache, Lookup, zero_policy, read_entry, get, set_policy, set_missing, get-set_policy,
}

-- `RemoteProvider` without its source.
pub record RemoteProvider (F : Type 0) : Type 0 where
  pub cache : Cache F
  pub cache_ttl : ℤ
  pub negative_cache_ttl : ℤ

-- An option sets one of the two times.
pub data RemoteProviderOption : Type 0 where
  with_cache_ttl with_negative_cache_ttl : ℤ → RemoteProviderOption

-- What the provider answers, and what is left of it.
abbrev pub Answer : Type 0 → Type 0
Answer F = EffectivePolicy F × Option Err × RemoteProvider F

module _ {F : Type 0} ⦃fl : Float F⦄ where
  unfoldable pub apply_option : RemoteProviderOption → RemoteProvider F → RemoteProvider F
  apply_option (with_cache_ttl ttl) p = record p { cache_ttl = ttl }
  apply_option (with_negative_cache_ttl ttl) p = record p { negative_cache_ttl = ttl }

  pub apply_options : List RemoteProviderOption → RemoteProvider F → RemoteProvider F
  unfolding apply_option
  apply_options [] p = p
  apply_options (o ∷ os) p = apply_options os (apply_option o p)

  -- `NewRemoteProvider`.
  unfoldable pub new_remote_provider : List RemoteProviderOption → RemoteProvider F
  unfolding apply_options
  new_remote_provider os = apply_options os (record {
    cache = [];
    cache_ttl = pos 60_000_000_000;
    negative_cache_ttl = pos 10_000_000_000;
  })

  -- The key, and the source where the policy names none.
  unfoldable pub stamped : PolicyKey → EffectivePolicy F → EffectivePolicy F
  stamped key pol = record pol {
    key = key;
    meta = record (pol.meta) {
      source = if is_empty pol.meta.source then "remote" else pol.meta.source;
    };
  }

  -- The lines after `Normalize`; `now` is the time of the write.
  unfoldable pub after_normalize :
      ℤ → PolicyKey → RemoteProvider F → EffectivePolicy F × Option NormalizeError → Answer F
  after_normalize now key p (pol, some e) = (zero_policy, some (invalid_policy e.field e.value), p)
  after_normalize now key p (pol, none) =
      (pol, none, record p { cache = set_policy now key pol p.cache_ttl p.cache })

  -- The lines after `source.GetPolicy`.
  unfoldable pub after_fetch :
      ℤ → PolicyKey → RemoteProvider F → EffectivePolicy F × Option Err → Answer F
  after_fetch now key p (pol, none) = after_normalize now key p (normalize (stamped key pol))
  after_fetch now key p (pol, some e) =
      if errors_is e policy_not_found
      then (
        zero_policy,
        some (sentinel policy_not_found),
        record p { cache = set_missing now key p.negative_cache_ttl p.cache },
      )
      else (zero_policy, some e, p)

  -- What a hit returns.
  unfoldable pub hit : Lookup F → RemoteProvider F → Answer F
  hit l p =
      if l.is_negative
      then (zero_policy, some (sentinel policy_not_found), p)
      else (l.policy, none, p)

  -- `RemoteProvider.GetEffectivePolicy`, with what the source would answer and the times of the look-up
  -- and of the write; the last result is whether the source was asked.
  unfoldable pub get_effective_policy :
      EffectivePolicy F × Option Err → ℤ → ℤ → PolicyKey → RemoteProvider F → Answer F × Bool
  get_effective_policy fetched now written key p =
      let l = get now key p.cache in
      if l.in_cache then (hit l p, false) else (after_fetch written key p fetched, true)

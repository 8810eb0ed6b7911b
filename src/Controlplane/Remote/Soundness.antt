-- ===== src/Controlplane/Remote/Soundness.antt =====
-- What the provider of controlplane/remote.go answers: policies in range, and the same again while
-- they are in the cache.
use recourse.Common.{Bool, true, false, ◌≡◌, refl, Option, none, some, if◌then◌else◌, arith}
use recourse.Common.Int.{ℤ, ◌+ℤ◌, ◌≤ℤ◌}
use recourse.Common.Float.{Float, IsExact}
use recourse.Common.Dict.{lookup, insert, lookup-insert}
use recourse.Policy.{PolicyKey, EffectivePolicy, NormalizeError}
use recourse.Policy.Key.{key_eq}
use recourse.Policy.Normalize.{normalize}
use recourse.Policy.Normalize.Bounds.{IsNormalized, normalize-IsNormalized}
use recourse.Errors.{Err, sentinel, policy_not_found, errors_is}
use recourse.Controlplane.Cache.{
  Entry, zero_policy, read_entry, get, set_policy, set_missing, get-set_policy,
}
use recourse.Controlplane.Remote.{
  RemoteProvider, Answer, stamped, after_normalize, after_fetch, hit, get_effective_policy,
}

module _ {F : Type 0} ⦃fl : Float F⦄ where
  -- Every policy in the cache is in range.
  pub record Inv (p : RemoteProvider F) : Type 0 where
    pub cached :
        (key : PolicyKey) (e : Entry F)
        → lookup key p.cache ≡ some e
        → e.found ≡ true
        → IsNormalized e.policy

  -- What is in range after a `Get` that finds a policy.
  hit_sound :
      (now : ℤ) (key : PolicyKey) (p : RemoteProvider F)
      → Inv p
      → (get now key p.cache).in_cache ≡ true
      → (get now key p.cache).is_negative ≡ false
      → IsNormalized (get now key p.cache).policy
  unfolding get read_entry
  hit_sound now key p i = go (lookup key p.cache) (λ e. i.cached key e)
    where
      go :
          (o : Option (Entry F))
          → ((e : Entry F) → o ≡ some e → e.found ≡ true → IsNormalized e.policy)
          → (read_entry now o).in_cache ≡ true
          → (read_entry now o).is_negative ≡ false
          → IsNormalized (read_entry now o).policy
      go none g h n = ground arith
      go (some e) g h n = ground (arith, g e refl)

  -- An entry that is written keeps the invariant, if it is negative or its policy is in range.
  insert-Inv :
      (key : PolicyKey) (e : Entry F) (p : RemoteProvider F)
      → (e.found ≡ true → IsNormalized e.policy)
      → Inv p
      → Inv (record p { cache = insert key e p.cache })
  insert-Inv key e p h i = record {
    cached = λ other x at f. ground (arith, lookup-insert key other e p.cache, i.cached other x, h);
  }

  -- An answer that is no error has a policy in range, and the cache stays as `Inv` says.
  abbrev IsSound : Answer F → Type 0
  IsSound (pol, e, p) = (e ≡ none → IsNormalized pol) × Inv p

  normalized-IsSound :
      (now : ℤ) (key : PolicyKey) (p : RemoteProvider F)
      (q : EffectivePolicy F × Option NormalizeError)
      → (q.1 ≡ none → IsNormalized q.0)
      → Inv p
      → IsSound (after_normalize now key p q)
  unfolding after_normalize set_policy
  normalized-IsSound now key p (pol, some e) h i = (λ n. ground (arith, n), i)
  normalized-IsSound now key p (pol, none) h i = (
    λ _. h refl,
    insert-Inv key (record { policy = pol; expires_at = now +ℤ p.cache_ttl; found = true }) p
        (λ _. h refl) i,
  )

  choice-IsSound :
      (b : Bool) (x y : Answer F) → IsSound x → IsSound y → IsSound (if b then x else y)
  choice-IsSound true x y hx hy = hx
  choice-IsSound false x y hx hy = hy

  module _ (exact : IsExact F) where
    fetch-IsSound :
        (now : ℤ) (key : PolicyKey) (p : RemoteProvider F)
        (fetched : EffectivePolicy F × Option Err)
        → Inv p
        → IsSound (after_fetch now key p fetched)
    unfolding after_fetch set_missing
    fetch-IsSound now key p (pol, none) i =
        normalized-IsSound now key p (normalize (stamped key pol))
          (normalize-IsNormalized exact (stamped key pol)) i
    fetch-IsSound now key p (pol, some e) i =
        choice-IsSound (errors_is e policy_not_found)
          (
            zero_policy,
            some (sentinel policy_not_found),
            record p { cache = set_missing now key p.negative_cache_ttl p.cache },
          )
          (zero_policy, some e, p)
          (
            λ n. ground (arith, n),
            insert-Inv key
                (record {
                  policy = zero_policy;
                  expires_at = now +ℤ p.negative_cache_ttl;
                  found = false;
                })
                p (λ f. ground (arith, f)) i,
          )
          (λ n. ground (arith, n), i)

    -- `get_effective_policy`, by the parts of the look-up.
    abbrev answered :
        (p : RemoteProvider F) → Bool → Bool → EffectivePolicy F → Answer F → Answer F × Bool
    answered p cached negative q other =
        if cached
        then (
          if negative then (zero_policy, some (sentinel policy_not_found), p) else (q, none, p),
          false,
        )
        else (other, true)

    -- Whatever the source answers, a policy that the provider returns without an error is in range,
    -- if every policy in its cache is; and then every policy in the cache that is left is too.
    pub remote-IsNormalized :
        (fetched : EffectivePolicy F × Option Err) (now written : ℤ) (key : PolicyKey)
        (p : RemoteProvider F)
        → Inv p
        → IsSound (get_effective_policy fetched now written key p).0
    unfolding get_effective_policy hit
    remote-IsNormalized fetched now written key p i =
        let l = get now key p.cache in go l.policy l.in_cache l.is_negative (hit_sound now key p i)
      where
        go :
            (q : EffectivePolicy F) (cached negative : Bool)
            → (cached ≡ true → negative ≡ false → IsNormalized q)
            → IsSound (answered p cached negative q (after_fetch written key p fetched)).0
        go q true true h = (λ n. ground (arith, n), i)
        go q true false h = (λ n. h refl refl, i)
        go q false b h = fetch-IsSound written key p fetched i

  -- Where the cache has nothing and the source gives a policy that can be normalised, the provider
  -- answers with it, and every later call for the key up to the end of the time to live answers the
  -- same and does not ask the source.
  pub remote_repeats :
      (fetched later : EffectivePolicy F) (e : Option Err) (now written at at' : ℤ)
      (key : PolicyKey) (p : RemoteProvider F)
      → (get now key p.cache).in_cache ≡ false
      → (normalize (stamped key fetched)).1 ≡ none
      → at ≤ℤ written +ℤ p.cache_ttl
      → let (pol, err, p') = (get_effective_policy (fetched, none) now written key p).0 in
        (err ≡ none) × (get_effective_policy (later, e) at at' key p' ≡ ((pol, none, p'), false))
  unfolding get_effective_policy after_fetch after_normalize hit
  remote_repeats fetched later e now written at at' key p miss ok soon = ground (
    arith,
    miss,
    ok,
    get-set_policy written at p.cache_ttl key (normalize (stamped key fetched)).0 p.cache,
  )

-- ===== src/Controlplane/Cache.antt =====
-- controlplane/cache.go: the policies by key, with a time to live. A method takes the time that
-- `time.Now` returns in it; a time is an integer of nanoseconds.
use recourse.Common.{Bool, true, false, ◌≡◌, Option, none, some, if◌then◌else◌, arith, not}
use recourse.Common.Int.{ℤ, pos, ◌+ℤ◌, ltb_ℤ, ◌≤ℤ◌, ◌<ℤ◌}
use recourse.Common.Float.{Float}
use recourse.Common.Dict.{Dict, lookup, insert, erase, lookup-insert, lookup-erase}
use recourse.Policy.{PolicyKey, EffectivePolicy}
use recourse.Policy.Key.{key_eq}
use recourse.Policy.Defaults.{bare_policy}

-- `cacheEntry`.
pub record Entry (F : Type 0) : Type 0 where
  pub policy : EffectivePolicy F
  pub expires_at : ℤ
  pub found : Bool

-- `PolicyCache`, without its mutex: a call is one step.
abbrev pub Cache : Type 0 → Type 0
Cache F = Dict PolicyKey (Entry F)

-- The three results of `Get`.
pub record Lookup (F : Type 0) : Type 0 where
  pub policy : EffectivePolicy F
  pub in_cache : Bool
  pub is_negative : Bool

module _ {F : Type 0} ⦃fl : Float F⦄ where
  -- `policy.EffectivePolicy{}`.
  abbrev pub zero_policy : EffectivePolicy F
  zero_policy = bare_policy (record { namespace = ""; name = "" }) (pos 0)

  unfoldable pub read_entry : ℤ → Option (Entry F) → Lookup F
  read_entry now none = record { policy = zero_policy; in_cache = false; is_negative = false }
  read_entry now (some e) =
      if ltb_ℤ e.expires_at now
      then record { policy = zero_policy; in_cache = false; is_negative = false }
      else record { policy = e.policy; in_cache = true; is_negative = not e.found }

  -- `PolicyCache.Get`.
  unfoldable pub get : ℤ → PolicyKey → Cache F → Lookup F
  get now key c = read_entry now (lookup key c)

  -- `PolicyCache.Set`.
  unfoldable pub set_policy : ℤ → PolicyKey → EffectivePolicy F → ℤ → Cache F → Cache F
  set_policy now key pol ttl c =
      insert key (record { policy = pol; expires_at = now +ℤ ttl; found = true }) c

  -- `PolicyCache.SetMissing`.
  unfoldable pub set_missing : ℤ → PolicyKey → ℤ → Cache F → Cache F
  set_missing now key ttl c =
      insert key (record { policy = zero_policy; expires_at = now +ℤ ttl; found = false }) c

  -- `PolicyCache.Invalidate`.
  unfoldable pub invalidate : PolicyKey → Cache F → Cache F
  invalidate key c = erase key c

  -- After `Set`, a `Get` up to and at the end of the time to live gives the policy, and later
  -- nothing; after `SetMissing` it gives the negative entry for as long.
  pub get-set_policy :
      (now at ttl : ℤ) (key : PolicyKey) (pol : EffectivePolicy F) (c : Cache F)
      → (at ≤ℤ now +ℤ ttl
          → get at key (set_policy now key pol ttl c)
            ≡ record { policy = pol; in_cache = true; is_negative = false })
        × (at ≤ℤ now +ℤ ttl
            → get at key (set_missing now key ttl c)
              ≡ record { policy = zero_policy; in_cache = true; is_negative = true })
        × (now +ℤ ttl <ℤ at → (get at key (set_policy now key pol ttl c)).in_cache ≡ false)
  unfolding get set_policy set_missing read_entry
  get-set_policy now at ttl key pol c = ground (
    arith,
    key_eq.beq_iff key key,
    lookup-insert key key (record { policy = pol; expires_at = now +ℤ ttl; found = true }) c,
    lookup-insert key key (record { policy = zero_policy; expires_at = now +ℤ ttl; found = false })
        c,
  )

  -- Each of the three writes leaves what a `Get` of another key gives, and after `Invalidate` a `Get`
  -- of the key finds nothing.
  pub writes_local :
      (now at ttl : ℤ) (key other : PolicyKey) (pol : EffectivePolicy F) (c : Cache F)
      → ((get at key (invalidate key c)).in_cache ≡ false)
        × (key_eq.beq key other ≡ false
            → (get at other (set_policy now key pol ttl c) ≡ get at other c)
              × (get at other (set_missing now key ttl c) ≡ get at other c)
              × (get at other (invalidate key c) ≡ get at other c))
  unfolding get set_policy set_missing invalidate read_entry
  writes_local now at ttl key other pol c = ground (
    arith,
    key_eq.beq_iff key key,
    lookup-erase key key c,
    lookup-erase key other c,
    lookup-insert key other (record { policy = pol; expires_at = now +ℤ ttl; found = true }) c,
    lookup-insert key other
        (record { policy = zero_policy; expires_at = now +ℤ ttl; found = false }) c,
  )

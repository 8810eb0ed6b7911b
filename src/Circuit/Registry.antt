-- ===== src/Circuit/Registry.antt =====
-- circuit/registry.go: the breakers by policy key. A breaker is shared by reference: the map has the
-- addresses, and `store` is the memory that they point into. `none` in the place of a breaker is the
-- nil interface. The second look-up under the write lock sees what the first saw, since a call is one
-- step here.
use recourse.Common.{
  ℕ, true, false, ◌≡◌, List, [], ◌∷◌, ◌++◌, Option, none, some, if◌then◌else◌, length, arith,
}
use recourse.Common.Dict.{Dict, lookup, insert, lookup-insert}
use recourse.Policy.{PolicyKey, CircuitPolicy}
use recourse.Policy.Key.{key_eq}
use recourse.Circuit.{Breaker, new_breaker}

pub record Registry : Type 0 where
  pub breakers : Dict PolicyKey ℕ
  pub store : List Breaker

-- `NewRegistry`, in a memory that may have breakers of others.
unfoldable pub new_registry : List Breaker → Registry
new_registry store = record { breakers = []; store = store }

-- What `Get` does where the look-up gives `found`.
unfoldable pub get_at : Option ℕ → PolicyKey → CircuitPolicy → Registry → Option ℕ × Registry
get_at (some address) key config r = (some address, r)
get_at none key config r = (
  some (length r.store),
  record {
    breakers = insert key (length r.store) r.breakers;
    store = r.store ++ (new_breaker config.threshold config.cooldown ∷ []);
  },
)

-- `Registry.Get`.
unfoldable pub get : PolicyKey → CircuitPolicy → Registry → Option ℕ × Registry
unfolding get_at
get key config r = if config.enabled then get_at (lookup key r.breakers) key config r else (none, r)

-- Every later `Get` of a key, with any policy that has the circuit on, gives the breaker of the first
-- and changes nothing: the first policy's threshold and cooldown stay.
pub get-get :
    (key : PolicyKey) (first second : CircuitPolicy) (r : Registry)
    → first.enabled ≡ true
    → second.enabled ≡ true
    → get key second (get key first r).1 ≡ ((get key first r).0, (get key first r).1)
unfolding get get_at
get-get key first second r h h' =
    ground (arith, lookup-insert key key (length r.store) r.breakers, key_eq.beq_iff key key)

-- `Get` of one key leaves the breaker that another key has.
pub get_other :
    (key other : PolicyKey) (config : CircuitPolicy) (r : Registry)
    → key_eq.beq key other ≡ false
    → lookup other (get key config r).1.breakers ≡ lookup other r.breakers
unfolding get get_at
get_other key other config r h = ground (arith, lookup-insert key other (length r.store) r.breakers)

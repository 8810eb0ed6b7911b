-- ===== src/Examples/Providers.antt =====
-- Package controlplane on concrete policies.
use recourse.Common.{ℕ, ◌≡◌, refl, [], ◌∷◌, Option, none, some, arith}
use recourse.Common.Int.{pos}
use recourse.Common.Dict.{lookup}
use recourse.Policy.{EffectivePolicy}
use recourse.Policy.Key.{key_eq}
use recourse.Policy.Defaults.{default_policy_for, bare_policy, is_zero_effective_policy}
use recourse.Policy.Normalize.{normalize}
use recourse.Policy.Normalize.Bounds.{IsNormalized}
use recourse.Controlplane.Cache.{Cache, set_policy}
use recourse.Controlplane.Static.{
  StaticProvider, stamped as static_stamped, get_effective_policy as static_policy,
}
use recourse.Controlplane.Remote.{RemoteProvider, get_effective_policy}
use recourse.Controlplane.Remote.Soundness.{Inv, remote-IsNormalized}
use recourse.Examples.{thousandths, exact, user_key, order_key}

abbrev plain : EffectivePolicy ℕ
plain = default_policy_for user_key

abbrev cache : Cache ℕ
cache = set_policy (pos 0) order_key plain (pos 60) []

abbrev static : Option (StaticProvider ℕ)
static = some (record {
  policies = some ((order_key, plain) ∷ []);
  default_policy = bare_policy order_key (pos 4);
})

static_accepts : (static_policy user_key static).1 ≡ none
unfolding static_policy normalize bare_policy default_policy_for lookup is_zero_effective_policy
    static_stamped
static_accepts = refl

abbrev remote : RemoteProvider ℕ
remote = record { cache = []; cache_ttl = pos 60; negative_cache_ttl = pos 10 }

remote-Inv : Inv remote
unfolding lookup
remote-Inv = record { cached = λ key e at f. ground (arith, at) }

remote-IsNormalized_example :
    ((get_effective_policy (plain, none) (pos 5) (pos 6) user_key remote).0.1 ≡ none
      → IsNormalized (get_effective_policy (plain, none) (pos 5) (pos 6) user_key remote).0.0)
    × Inv (get_effective_policy (plain, none) (pos 5) (pos 6) user_key remote).0.2
remote-IsNormalized_example =
    remote-IsNormalized exact (plain, none) (pos 5) (pos 6) user_key remote remote-Inv

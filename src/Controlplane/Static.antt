-- ===== src/Controlplane/Static.antt =====
-- controlplane/provider.go: the provider over a map of policies and a default.
use recourse.Common.{Bool, true, false, ◌≡◌, Option, none, some, if◌then◌else◌, ◌||◌}
use recourse.Common.Text.{str_eq, is_empty}
use recourse.Common.Float.{Float, IsExact}
use recourse.Common.Dict.{Dict, lookup}
use recourse.Policy.{PolicyKey, EffectivePolicy, NormalizeError}
use recourse.Policy.Key.{key_eq}
use recourse.Policy.Defaults.{default_policy_for, is_zero_effective_policy}
use recourse.Policy.Normalize.{normalize}
use recourse.Policy.Normalize.Bounds.{IsNormalized, normalize-IsNormalized}

-- `StaticProvider`; `none` in the place of the map is the nil map.
pub record StaticProvider (F : Type 0) : Type 0 where
  pub policies : Option (Dict PolicyKey (EffectivePolicy F))
  pub default_policy : EffectivePolicy F

module _ {F : Type 0} ⦃fl : Float F⦄ where
  -- The policy with the key that was asked, and with the source where it has none.
  unfoldable pub stamped : PolicyKey → EffectivePolicy F → EffectivePolicy F
  stamped key pol =
      let source = pol.meta.source in
      record pol {
        key = key;
        meta = record (pol.meta) {
          source = if is_empty source || str_eq source "unknown" then "static" else source;
        };
      }

  -- The policy of the map, if `p != nil && p.Policies != nil` and it has one.
  unfoldable pub find_policy : PolicyKey → Option (StaticProvider F) → Option (EffectivePolicy F)
  find_policy key none = none
  find_policy key (some p) = elim p.policies [ none ↦ none | some m ↦ lookup key m ]

  unfoldable pub default_of :
      PolicyKey → Option (StaticProvider F) → EffectivePolicy F × Option NormalizeError
  default_of key none = normalize (default_policy_for key)
  default_of key (some p) =
      if is_zero_effective_policy p.default_policy
      then normalize (default_policy_for key)
      else normalize (stamped key p.default_policy)

  -- `StaticProvider.GetEffectivePolicy`; `none` is the nil pointer.
  unfoldable pub get_effective_policy :
      PolicyKey → Option (StaticProvider F) → EffectivePolicy F × Option NormalizeError
  unfolding find_policy default_of
  get_effective_policy key p = elim (find_policy key p) [
    | some pol ↦ normalize (stamped key pol)
    | none ↦ default_of key p
  ]

module _ {F : Type 0} ⦃fl : Float F⦄ (exact : IsExact F) where
  abbrev IsSound : EffectivePolicy F × Option NormalizeError → Type 0
  IsSound (pol, e) = e ≡ none → IsNormalized pol

  choice-IsSound :
      (b : Bool) (x y : EffectivePolicy F × Option NormalizeError)
      → IsSound x
      → IsSound y
      → IsSound (if b then x else y)
  choice-IsSound true x y hx hy = hx
  choice-IsSound false x y hx hy = hy

  default-IsSound : (key : PolicyKey) (p : Option (StaticProvider F)) → IsSound (default_of key p)
  unfolding default_of
  default-IsSound key none = normalize-IsNormalized exact (default_policy_for key)
  default-IsSound key (some p) =
      choice-IsSound (is_zero_effective_policy p.default_policy)
        (normalize (default_policy_for key)) (normalize (stamped key p.default_policy))
        (normalize-IsNormalized exact (default_policy_for key))
        (normalize-IsNormalized exact (stamped key p.default_policy))

  -- Whatever policies the provider has, a policy that it returns without an error is in range.
  pub static-IsNormalized :
      (key : PolicyKey) (p : Option (StaticProvider F))
      → (get_effective_policy key p).1 ≡ none
      → IsNormalized (get_effective_policy key p).0
  unfolding get_effective_policy
  static-IsNormalized key p = go (find_policy key p)
    where
      go :
          (o : Option (EffectivePolicy F))
          → IsSound (elim o [ some pol ↦ normalize (stamped key pol) | none ↦ default_of key p ])
      go none = default-IsSound key p
      go (some pol) = normalize-IsNormalized exact (stamped key pol)

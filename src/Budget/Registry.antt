-- ===== src/Budget/Registry.antt =====
-- budget/registry.go. A registry is `none` for the nil pointer; `B` is the type of budgets, of which
-- `is_nil` says which are typed nils, and `none` is the nil interface.
use recourse.Common.{String, Bool, Option, none, some, if◌then◌else◌}
use recourse.Common.Text.{trim_space, is_empty}
use recourse.Common.Dict.{Dict, string_eq, lookup, insert}

-- The results of `Register`: the registry, or the text of the error.
pub data Registered (B : Type 0) : Type 0 where
  entered : Dict String B → Registered B
  refused : String → Registered B

module _ {B : Type 0} where
  -- `Registry.Get`.
  unfoldable pub get : String → Option (Dict String B) → Option B
  get name none = none
  get name (some r) = let key = trim_space name in if is_empty key then none else lookup key r

  register_some : (B → Bool) → String → Option B → Dict String B → Registered B
  register_some is_nil name none r =
      if is_empty name
      then refused "budget name cannot be empty"
      else refused "budget cannot be nil"
  register_some is_nil name (some b) r =
      if is_empty name
      then refused "budget name cannot be empty"
      else if is_nil b
      then refused "budget cannot be nil"
      else entered (insert name b r)

  -- `Registry.Register`.
  unfoldable pub register : (B → Bool) → String → Option B → Option (Dict String B) → Registered B
  unfolding register_some
  register is_nil name b none = refused "registry is nil"
  register is_nil name b (some r) = register_some is_nil (trim_space name) b r

  -- `MustRegister`: `none` is the panic.
  unfoldable pub must_register :
      (B → Bool) → String → Option B → Option (Dict String B) → Option (Dict String B)
  unfolding register
  must_register is_nil name b r = elim (register is_nil name b r) [
    | entered r' ↦ some r'
    | refused e ↦ none
  ]

-- ===== src/Classify/Registry.antt =====
-- classify/registry.go and the names that `RegisterBuiltins` enters. A registry is `none` for the nil
-- pointer, and a classifier that may be nil is an `Option`; `C` is the type of classifiers.
use recourse.Common.{String, ◌≡◌, refl, [], Option, none, some, if◌then◌else◌, arith, ◌&&◌, not}
use recourse.Common.Text.{str_eq, trim_space, is_empty}
use recourse.Common.Dict.{Dict, string_eq, lookup, insert, lookup-insert}

abbrev pub Registry : Type 0 → Type 0
Registry C = Dict String C

module _ {C : Type 0} where
  abbrev pub new_registry : Registry C
  new_registry = []

  insert_some : String → Option C → Registry C → Registry C
  insert_some name none r = r
  insert_some name (some c) r = if is_empty name then r else insert name c r

  -- `Registry.Register`.
  unfoldable pub register : String → Option C → Option (Registry C) → Option (Registry C)
  unfolding insert_some
  register name c none = none
  register name c (some r) = some (insert_some (trim_space name) c r)

  -- `Registry.Get`; a nil classifier is never entered, so `ok && c != nil` is `ok`.
  unfoldable pub get : String → Option (Registry C) → Option C
  get name none = none
  get name (some r) = let key = trim_space name in if is_empty key then none else lookup key r

  -- `RegisterBuiltins`, for the classifiers that it makes.
  unfoldable pub register_builtins : C → C → C → Option (Registry C) → Option (Registry C)
  unfolding register
  register_builtins always http auto reg =
      register "auto" (some auto)
        (register "http" (some http) (register "always" (some always) reg))

  -- After a registration under a name that is not blank, a look-up gives that classifier under every
  -- spelling of the name that differs in outer space only, and what it gave before under any other.
  -- A blank name or a nil classifier registers nothing.
  pub get-register :
      (name key : String) (c : Option C) (r : Registry C)
      → get key (register name c (some r)) ≡ elim c [
        | none ↦ get key (some r)
        | some x ↦
            if not (is_empty (trim_space name)) && str_eq (trim_space name) (trim_space key)
            then some x
            else get key (some r)
      ]
  unfolding register get
  get-register name key none r = refl
  get-register name key (some x) r = ground (
    arith,
    lookup-insert (trim_space name) (trim_space key) x r,
    string_eq.beq_iff (trim_space name) (trim_space key),
  )

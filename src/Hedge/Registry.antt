-- ===== src/Hedge/Registry.antt =====
-- hedge/registry.go: the triggers by name. `T` is the type of triggers and `none` the nil interface.
use recourse.Common.{String, [], Option, none, some, if◌then◌else◌}
use recourse.Common.Text.{is_empty}
use recourse.Common.Dict.{Dict, string_eq, lookup, insert}

module _ {T : Type 0} where
  -- `NewRegistry`.
  abbrev pub new_registry : Dict String T
  new_registry = []

  -- `Registry.Register`; `none` is a panic.
  unfoldable pub register : String → Option T → Dict String T → Option (Dict String T)
  register name none r = none
  register name (some t) r = if is_empty name then none else some (insert name t r)

  -- `Registry.Get`; the name is not trimmed, unlike in the other registries.
  unfoldable pub get : String → Dict String T → Option T
  get name r = lookup name r

-- ===== src/Policy/Key.antt =====
-- policy/key.go: parsing and printing of policy keys.
pub mod RoundTrip
use Prim.Native.Char.{code}
use Prim.Native.String.{String, ◌++◌}
use recourse.Common.{Bool, true, ◌≡◌, ◌↔◌, Option, none, some, ◌==◌, if◌then◌else◌, ◌&&◌, arith}
use recourse.Common.Dict.{Eq, string_eq}
use recourse.Common.Text.{trim_space, is_empty, str_eq}
use recourse.Policy.{PolicyKey}

-- `strings.IndexByte(s, '.')` with the two slices around it: the text before and after the first
-- dot, `none` where there is no dot.
pub cut_dot : String → Option (String × String)
cut_dot String.[] = none
cut_dot (String.◌∷◌ c s) =
    let rest = cut_dot s in
    if code c == b'.'
    then some ("", s)
    else elim rest [ none ↦ none | some (before, after) ↦ some (String.◌∷◌ c before, after) ]

-- The three returns of `ParseKey` after the trim.
pub split_key : String → Option (String × String) → PolicyKey
split_key s none = record { namespace = ""; name = s }
split_key s (some (before, after)) =
    let name = trim_space after in
    if is_empty name
    then record { namespace = ""; name = s }
    else record { namespace = trim_space before; name = name }

unfoldable pub parse_key : String → PolicyKey
unfolding cut_dot split_key
parse_key s =
    let t = trim_space s in
    if is_empty t then record { namespace = ""; name = "" } else split_key t (cut_dot t)

-- `PolicyKey.String`.
unfoldable pub to_string : PolicyKey → String
to_string k =
    if is_empty k.namespace
    then k.name
    else if is_empty k.name
    then k.namespace
    else (k.namespace ++ ("." ++ k.name))

abbrev pub same_key : PolicyKey → PolicyKey → Bool
same_key a b = str_eq a.namespace b.namespace && str_eq a.name b.name

pub same_key_iff : (a b : PolicyKey) → (same_key a b ≡ true) ↔ (a ≡ b)
same_key_iff a b =
    ground (arith, string_eq.beq_iff a.namespace b.namespace, string_eq.beq_iff a.name b.name)

-- `==` of two keys, which the maps by key use.
instance abbrev pub key_eq : Eq PolicyKey
key_eq = record { beq = same_key; beq_iff = same_key_iff }

-- ===== src/Policy/Key/RoundTrip.antt =====
-- Printing and parsing of the keys of policy/key.go.
use Prim.Native.Char.{code}
use Prim.Native.String.{String, ◌++◌}
use recourse.Common.{Bool, true, false, ◌≡◌, refl, some, arith, ◌&&◌, ◌==◌, if◌then◌else◌}
use recourse.Common.Text.{
  trim_space_plain, starts_plain, ends_plain, is_empty, ends_plain-append, starts_plain-append,
  nil_append, cons_append,
}
use recourse.Policy.{PolicyKey}
use recourse.Policy.Key.{cut_dot, split_key, parse_key, to_string}

-- No dot in the text.
unfoldable pub is_dotless : String → Bool
is_dotless String.[] = true
is_dotless (String.◌∷◌ c s) = if code c == b'.' then false else is_dotless s

-- A text that is not empty and has no space at either end.
unfoldable pub is_plain : String → Bool
is_plain s = starts_plain s && ends_plain s

cut_dot-append : (s t : String) → is_dotless s ≡ true → cut_dot (s ++ ("." ++ t)) ≡ some (s, t)
unfolding cut_dot is_dotless
cut_dot-append String.[] t h = rw (nil_append ("." ++ t), cons_append _ "" t, nil_append t) refl
cut_dot-append (String.◌∷◌ c s) t h =
    rw (cons_append c s ("." ++ t)) (ground (arith, cut_dot-append s t))

plain_there : (s : String) → starts_plain s ≡ true → is_empty s ≡ false
unfolding starts_plain
plain_there String.[] h = ground arith
plain_there (String.◌∷◌ c s) h = refl

-- A key is parsed back from its text, if neither its namespace nor its name is empty or has a space at
-- an end, and the namespace has no dot; the name may have dots.
pub parse_key-to_string :
    (k : PolicyKey)
    → is_plain k.namespace ≡ true
    → is_dotless k.namespace ≡ true
    → is_plain k.name ≡ true
    → parse_key (to_string k) ≡ k
unfolding parse_key to_string split_key is_plain
parse_key-to_string k h d n =
    let text = k.namespace ++ ("." ++ k.name) in
    ground (
      arith,
      trim_space_plain text,
      starts_plain-append k.namespace ("." ++ k.name),
      ends_plain-append k.namespace ("." ++ k.name),
      ends_plain-append "." k.name,
      cut_dot-append k.namespace k.name,
      trim_space_plain k.namespace,
      trim_space_plain k.name,
      plain_there k.namespace,
      plain_there k.name,
      plain_there text,
    )

-- ===== src/Common/Text.antt =====
-- What the program uses of package `strings`, over the native texts (sequences of code points).
use Prim.Native.Nat.{ℕ, zero, suc, ◌-◌, ◌/◌, ◌%◌}
use Prim.Native.Char.{Char, code, nul}
use Prim.Native.String.{String, ◌++◌}
use Prim.Native.String.append
use native.Mathlib.Omega.{arith}
use mathlib.Core.Bool.{Bool, true, false, ◌&&◌, ◌||◌, not}
use text.Mathlib.Text.{◌==◌ as text_eq}
use text.Mathlib.TextEquality.{eq_iff}
use mathlib.Core.Path.{◌≡◌, refl}
use recourse.Common.Int.{ℤ, pos, negsuc}
use recourse.Common.Tests.{leb, ◌==◌, if◌then◌else◌}

abbrev pub str_eq : String → String → Bool
str_eq = text_eq

pub str_eq-true : (s t : String) → str_eq s t ≡ true → s ≡ t
str_eq-true s t h = (eq_iff s t).0 h

pub str_eq_self : (s : String) → str_eq s s ≡ true
str_eq_self s = (eq_iff s s).1 (λ i. s)

abbrev pub is_empty : String → Bool
is_empty String.[] = true
is_empty (String.◌∷◌ c s) = false

-- `unicode.IsSpace`.
unfoldable pub is_space : ℕ → Bool
is_space c =
    (leb 9 c && leb c 13)
    || c == 32
    || c == 0x85
    || c == 0xa0
    || c == 0x1680
    || (leb 0x2000 c && leb c 0x200a)
    || c == 0x2028
    || c == 0x2029
    || c == 0x202f
    || c == 0x205f
    || c == 0x3000

pub trim_left : String → String
trim_left String.[] = ""
trim_left (String.◌∷◌ c s) =
    let rest = trim_left s in if is_space (code c) then rest else String.◌∷◌ c s

pub trim_right : String → String
trim_right String.[] = ""
trim_right (String.◌∷◌ c s) =
    let rest = trim_right s in if is_space (code c) && is_empty rest then "" else String.◌∷◌ c rest

-- `strings.TrimSpace`.
unfoldable pub trim_space : String → String
unfolding trim_left trim_right is_space
trim_space s = trim_right (trim_left s)

-- The `i`-th character of a table, or `d` past its end.
pub pick : Char → String → ℕ → Char
pick d String.[] i = d
pick d (String.◌∷◌ c s) zero = c
pick d (String.◌∷◌ c s) (suc i) = pick d s i

-- Upper case of the letters a to z, and of the two other characters whose upper case is ASCII
-- (U+0131 and U+017F); the rest is left as it is.
upper_char : Char → Char
unfolding pick
upper_char c =
    if leb b'a' (code c) && leb (code c) b'z'
    then pick c "ABCDEFGHIJKLMNOPQRSTUVWXYZ" (code c - b'a')
    else if code c == 0x131
    then pick c "I" 0
    else if code c == 0x17f
    then pick c "S" 0
    else c

-- `strings.ToUpper`, as far as the comparisons with ASCII words see it.
unfoldable pub to_upper : String → String
unfolding upper_char
to_upper String.[] = ""
to_upper (String.◌∷◌ c s) = String.◌∷◌ (upper_char c) (to_upper s)

lower_char : Char → Char
unfolding pick
lower_char c =
    if leb b'A' (code c) && leb (code c) b'Z'
    then pick c "abcdefghijklmnopqrstuvwxyz" (code c - b'A')
    else if code c == 0x212a
    then pick c "k" 0
    else c

-- `strings.ToLower`, as far as the comparisons with ASCII words see it.
unfoldable pub to_lower : String → String
unfolding lower_char
to_lower String.[] = ""
to_lower (String.◌∷◌ c s) = String.◌∷◌ (lower_char c) (to_lower s)

-- The decimal digits of `n` before `rest`; a fuel of `n` rounds is more than enough.
digits_before : ℕ → ℕ → String → String
digits_before zero n rest = rest
digits_before (suc fuel) n rest =
    let text = String.◌∷◌ (pick nul "0123456789" (n % 10)) rest in
    let more = digits_before fuel (n / 10) text in if n / 10 == 0 then text else more

-- `strconv.Itoa`.
unfoldable pub itoa : ℤ → String
unfolding digits_before pick
itoa (pos n) = digits_before (suc n) n ""
itoa (negsuc n) = "-" ++ digits_before (suc (suc n)) (suc n) ""

-- The first, and the last, character is there and is no space.
unfoldable pub starts_plain : String → Bool
starts_plain String.[] = false
starts_plain (String.◌∷◌ c s) = not (is_space (code c))

unfoldable pub ends_plain : String → Bool
ends_plain String.[] = false
ends_plain (String.◌∷◌ c s) =
    let rest = ends_plain s in if is_empty s then not (is_space (code c)) else rest

ends_plain_cons : (c : Char) (s : String) → ends_plain s ≡ true → ends_plain (String.◌∷◌ c s) ≡ true
unfolding ends_plain
ends_plain_cons c String.[] h = ground arith
ends_plain_cons c (String.◌∷◌ d s) h = h

trim_left_plain : (s : String) → starts_plain s ≡ true → trim_left s ≡ s
unfolding starts_plain trim_left
trim_left_plain String.[] h = refl
trim_left_plain (String.◌∷◌ c s) h = ground arith

trim_right_plain : (s : String) → ends_plain s ≡ true → trim_right s ≡ s
unfolding ends_plain trim_right
trim_right_plain String.[] h = refl
trim_right_plain (String.◌∷◌ c String.[]) h = ground arith
trim_right_plain (String.◌∷◌ c (String.◌∷◌ e s)) h =
    ground (arith, trim_right_plain (String.◌∷◌ e s))

-- A text without spaces at its ends is left as it is.
pub trim_space_plain : (s : String) → starts_plain s ≡ true → ends_plain s ≡ true → trim_space s ≡ s
unfolding trim_space
trim_space_plain s h e = ground (arith, trim_left_plain s, trim_right_plain s)

-- The clauses of the native operation.
pub nil_append : (t : String) → ("" ++ t) ≡ t
nil_append t i = append.nil t i

pub cons_append : (c : Char) (s t : String) → (String.◌∷◌ c s ++ t) ≡ String.◌∷◌ c (s ++ t)
cons_append c s t i = append.cons c s t i

pub ends_plain-append : (s t : String) → ends_plain t ≡ true → ends_plain (s ++ t) ≡ true
ends_plain-append String.[] t h = rw (nil_append t) h
ends_plain-append (String.◌∷◌ c s) t h =
    rw (cons_append c s t) (ends_plain_cons c (s ++ t) (ends_plain-append s t h))

pub starts_plain-append : (s t : String) → starts_plain s ≡ true → starts_plain (s ++ t) ≡ true
unfolding starts_plain
starts_plain-append String.[] t h = ground arith
starts_plain-append (String.◌∷◌ c s) t h = rw (cons_append c s t) h

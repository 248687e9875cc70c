-- ===== src/Text.antt =====
-- The operations on Python's `str` that the program uses, over code points.
pub mod Decimal
pub mod Repr
pub mod Laws
use oracle_patching.Prelude.{
  ℕ, zero, suc, ◌+◌, ◌-◌, ◌*◌, ◌/◌, ◌<◌, Char, code, String, ◌<>◌, ap, Bool, true, false, ◌&&◌,
  ◌||◌, Option, none, some, List, [], ◌∷◌, map, str_eq, leb, ◌==◌, if◌then◌else◌, take,
}
use mathlib.Core.Option
use oracle_patching.Prelude.Int.{ℤ, pos, negsuc}

-- len(s)
abbrev pub str_len : String → ℕ
str_len String.[] = 0
str_len (String.◌∷◌ c s) = suc (str_len s)

-- s[:n]
unfoldable pub str_take : ℕ → String → String
str_take zero s = ""
str_take (suc n) String.[] = ""
str_take (suc n) (String.◌∷◌ c s) = String.◌∷◌ c (str_take n s)

unfoldable pub str_drop : ℕ → String → String
str_drop zero s = s
str_drop (suc n) String.[] = ""
str_drop (suc n) (String.◌∷◌ c s) = str_drop n s

-- s[-n:]
unfoldable pub str_tail : ℕ → String → String
unfolding str_drop
str_tail n s = str_drop (str_len s - n) s

abbrev pub is_empty : String → Bool
is_empty String.[] = true
is_empty (String.◌∷◌ c s) = false

-- str.isspace() of one character.
unfoldable pub is_space : Char → Bool
is_space c =
    let n = code c in
    (leb 9 n && leb n 13)
    || (leb 28 n && leb n 32)
    || n == 133
    || n == 160
    || n == 5760
    || (leb 8192 n && leb n 8202)
    || n == 8232
    || n == 8233
    || n == 8239
    || n == 8287
    || n == 12288

unfoldable pub lstrip : String → String
unfolding is_space
lstrip String.[] = ""
lstrip (String.◌∷◌ c s) = if is_space c then lstrip s else String.◌∷◌ c s

unfoldable pub rstrip : String → String
unfolding is_space
rstrip String.[] = ""
rstrip (String.◌∷◌ c s) =
    let r = rstrip s in if is_space c && is_empty r then "" else String.◌∷◌ c r

-- s.strip()
unfoldable pub strip : String → String
unfolding lstrip rstrip
strip s = rstrip (lstrip s)

abbrev pub push_char : Char → List String → List String
push_char c [] = String.◌∷◌ c "" ∷ []
push_char c (w ∷ ws) = String.◌∷◌ c w ∷ ws

-- s.split(sep) for a separator of one character: at least one part, parts may be empty.
unfoldable pub split : Char → String → List String
split sep String.[] = "" ∷ []
split sep (String.◌∷◌ c s) =
    let rest = split sep s in if code c == code sep then "" ∷ rest else push_char c rest

-- sep.join(parts)
unfoldable pub join : String → List String → String
join sep [] = ""
join sep (w ∷ []) = w
join sep (w ∷ (v ∷ vs)) = w <> sep <> join sep (v ∷ vs)

abbrev pub is_digit : Char → Bool
is_digit c = leb 48 (code c) && leb (code c) 57

-- The digits of `int()`: one underscore may stand between two digits. The flag says that the last
-- character was a digit.
unfoldable pub int_digits : ℕ → Bool → String → Option ℕ
int_digits a after String.[] = if after then some a else none
int_digits a after (String.◌∷◌ c s) = elim (is_digit c) [
  | true ↦ int_digits (a * 10 + (code c - 48)) true s
  | false ↦ if code c == b'_' && after then int_digits a false s else none
]

abbrev negate : ℕ → ℤ
negate zero = pos 0
negate (suc n) = negsuc n

int_signed : String → Option ℤ
unfolding int_digits
int_signed String.[] = none
int_signed (String.◌∷◌ c s) =
    if code c == b'-'
    then Option.map negate (int_digits 0 false s)
    else if code c == b'+'
    then Option.map pos (int_digits 0 false s)
    else Option.map pos (int_digits 0 false (String.◌∷◌ c s))

-- int(s) for ASCII digits; `none` is the ValueError.
unfoldable pub py_int : String → Option ℤ
unfolding int_signed strip
py_int s = int_signed (strip s)

unfoldable pub has_prefix : String → String → Bool
has_prefix String.[] s = true
has_prefix (String.◌∷◌ c p) String.[] = false
has_prefix (String.◌∷◌ c p) (String.◌∷◌ d s) = code c == code d && has_prefix p s

-- s.endswith(suffix)
unfoldable pub has_suffix : String → String → Bool
has_suffix suffix String.[] = is_empty suffix
has_suffix suffix (String.◌∷◌ c s) =
    let rest = has_suffix suffix s in if str_eq suffix (String.◌∷◌ c s) then true else rest

-- `sub in s`
unfoldable pub contains : String → String → Bool
unfolding has_prefix
contains sub String.[] = is_empty sub
contains sub (String.◌∷◌ c s) = has_prefix sub (String.◌∷◌ c s) || contains sub s

-- str(base / rel) of paths that are in normal form: an absolute `rel` replaces the base.
unfoldable pub path_join : String → String → String
unfolding has_prefix
path_join base rel = if has_prefix "/" rel then rel else base <> "/" <> rel

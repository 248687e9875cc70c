-- ===== src/Json/Scan.antt =====
-- `json.loads`: the characters of texts. A text is the list of its characters, and `none` is the
-- JSONDecodeError.
use oracle_patching.Prelude.{
  ℕ, zero, suc, ◌+◌, ◌-◌, ◌*◌, compare, Ordering, Char, code, String, ◌≡◌, refl, Bool, true, false,
  ◌&&◌, ◌||◌, Option, none, some, List, [], ◌∷◌, ltb, leb, ◌==◌, if◌then◌else◌, length,
}
use Prim.Native.Char.{char, IsLt}
use oracle_patching.Json.{Json}

-- What Python has of its own: a float of its numeral, the constants NaN, Infinity and -Infinity, the
-- character of a surrogate that stands alone, and the message of the JSONDecodeError for a text.
pub record Hooks : Type 0 where
  pub parse_float : String → Json
  pub parse_constant : String → Json
  pub surrogate : ℕ → Char
  pub message : String → String

-- What is read in front, and what follows it.
abbrev pub Scan {ℓ} : Type ℓ → Type ℓ
Scan A = Option (A × List Char)

abbrev pub read_then {ℓ ℓ₁} :
    {A : Type ℓ} → {B : Type ℓ₁} → Scan A → (A → List Char → Scan B) → Scan B
read_then r k = elim r [ none ↦ none | some x ↦ k x.0 x.1 ]

pub read_then-some {ℓ ℓ₁} :
    {A : Type ℓ} {B : Type ℓ₁} (r : Scan A) (k : A → List Char → Scan B) (x : A) (rest : List Char)
    → r ≡ some (x, rest)
    → read_then r k ≡ k x rest
read_then-some r k x rest e = rw e refl

-- The blanks of JSON.
abbrev pub is_blank : Char → Bool
is_blank c = let n = code c in n == 32 || n == 9 || n == 10 || n == 13

unfoldable pub skip : List Char → List Char
skip [] = []
skip (c ∷ cs) = elim (is_blank c) [ true ↦ skip cs | false ↦ c ∷ cs ]

-- The cases of `IsScalar`.
abbrev BothLt : Ordering → Ordering → Type 0
BothLt Ordering.lt p = IsLt p
BothLt Ordering.eq p = ⊥
BothLt Ordering.gt p = ⊥

abbrev pub ScalarOf : Ordering → Ordering → Ordering → Type 0
ScalarOf Ordering.lt o p = Unit
ScalarOf Ordering.eq o p = BothLt o p
ScalarOf Ordering.gt o p = BothLt o p

between : (o p : Ordering) → (BothLt o p → Char) → Char → Char
between Ordering.lt Ordering.lt f d = f tt
between Ordering.lt Ordering.eq f d = d
between Ordering.lt Ordering.gt f d = d
between Ordering.eq p f d = d
between Ordering.gt p f d = d

unfoldable pub if_scalar : (o p q : Ordering) → (ScalarOf o p q → Char) → Char → Char
unfolding between
if_scalar Ordering.lt p q f d = f tt
if_scalar Ordering.eq p q f d = between p q f d
if_scalar Ordering.gt p q f d = between p q f d

-- chr(n)
unfoldable pub of_code : Hooks → ℕ → Char
unfolding if_scalar
of_code h n =
    if_scalar (compare n 55296) (compare 57343 n) (compare n 1114112) (λ p. char n p)
      (h.surrogate n)

unfoldable pub hex_digit : Char → Option ℕ
hex_digit c =
    let n = code c in
    if leb 48 n && leb n 57
    then some (n - 48)
    else if leb 97 n && leb n 102
    then some (n - 87)
    else if leb 65 n && leb n 70
    then some (n - 55)
    else none

-- Four hexadecimal digits in front.
unfoldable pub hex_digits : ℕ → ℕ → List Char → Scan ℕ
unfolding hex_digit
hex_digits zero a cs = some (a, cs)
hex_digits (suc k) a [] = none
hex_digits (suc k) a (c ∷ cs) = elim (hex_digit c) [
  | none ↦ none
  | some d ↦ hex_digits k (a * 16 + d) cs
]

-- The second half of a surrogate pair, after the first.
unfoldable pub low_half : Hooks → ℕ → List Char → Scan Char
unfolding hex_digits of_code
low_half h n (a ∷ (b ∷ cs)) =
    if code a == 92 && code b == 117
    then read_then (hex_digits 4 0 cs) (λ m rest.
      if leb 56320 m && leb m 57343
      then some (of_code h (65536 + (n - 55296) * 1024 + (m - 56320)), rest)
      else some (of_code h n, a ∷ (b ∷ cs)))
    else some (of_code h n, a ∷ (b ∷ cs))
low_half h n cs = some (of_code h n, cs)

unfoldable pub unicode : Hooks → List Char → Scan Char
unfolding low_half hex_digits of_code
unicode h cs =
    read_then (hex_digits 4 0 cs)
      (λ n rest. if leb 55296 n && leb n 56319 then low_half h n rest else some (of_code h n, rest))

-- BACKSLASH
unfoldable pub short_escape : ℕ → Option Char
short_escape n =
    if n == 34
    then some "\""
    else if n == 92
    then some "\\"
    else if n == 47
    then some "/"
    else if n == 98
    then some "\u{8}"
    else if n == 102
    then some "\u{c}"
    else if n == 110
    then some "\n"
    else if n == 114
    then some "\r"
    else if n == 116
    then some "\t"
    else none

-- After a backslash.
unfoldable pub escaped : Hooks → List Char → Scan Char
unfolding unicode short_escape
escaped h [] = none
escaped h (c ∷ cs) =
    if code c == 117
    then unicode h cs
    else elim (short_escape (code c)) [ none ↦ none | some d ↦ some (d, cs) ]

-- One character of a text; a control character may not stand there.
unfoldable pub character : Hooks → Char → List Char → Scan Char
unfolding escaped
character h c cs =
    if code c == 92 then escaped h cs else if ltb (code c) 32 then none else some (c, cs)

-- The text up to its closing quotation mark.
unfoldable pub characters : Hooks → ℕ → List Char → Scan String
unfolding character
characters h zero cs = none
characters h (suc f) [] = none
characters h (suc f) (c ∷ cs) = elim (code c == 34) [
  | true ↦ some ("", cs)
  | false ↦
      read_then (character h c cs)
        (λ d rest. read_then (characters h f rest) (λ s after. some (String.◌∷◌ d s, after)))
]

-- Each character takes one at least of those that follow.
unfoldable pub string : Hooks → List Char → Scan String
unfolding characters
string h cs = characters h (length cs) cs

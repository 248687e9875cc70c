-- ===== src/Json/Numeral.antt =====
-- `json.loads`: numbers.
use oracle_patching.Prelude.{
  ℕ, zero, suc, Char, code, String, ◌<>◌, Bool, true, false, ◌&&◌, ◌||◌, Option, none, some, List,
  [], ◌∷◌, ◌++◌, ◌==◌, if◌then◌else◌,
}
use oracle_patching.Prelude.Int.{ℤ, pos, negsuc}
use oracle_patching.Text.{is_digit, int_digits}
use oracle_patching.Json.{Json, num}
use oracle_patching.Json.Chars.{to_text}
use oracle_patching.Json.Scan.{Hooks, Scan, read_then}

-- The digits in front, and what follows them.
unfoldable pub digit_run : List Char → List Char × List Char
digit_run [] = ([], [])
digit_run (c ∷ cs) =
    let run = digit_run cs in if is_digit c then (c ∷ run.0, run.1) else ([], c ∷ cs)

-- 0|[1-9]\d*
unfoldable pub whole : List Char → Scan (List Char)
unfolding digit_run
whole [] = none
whole (c ∷ cs) =
    if code c == 48
    then some (c ∷ [], cs)
    else if is_digit c
    then some (digit_run (c ∷ cs))
    else none

-- (\.\d+)?
unfoldable pub fraction : List Char → List Char × List Char
unfolding digit_run
fraction (c ∷ (d ∷ cs)) =
    let run = digit_run (d ∷ cs) in
    if code c == 46 && is_digit d then (c ∷ run.0, run.1) else ([], c ∷ (d ∷ cs))
fraction cs = ([], cs)

abbrev pub some_digits : List Char → List Char → List Char → List Char × List Char
unfolding digit_run
some_digits front cs otherwise =
    let run = digit_run cs in
    elim run.0 [ [] ↦ ([], otherwise) | d ∷ ds ↦ (front ++ d ∷ ds, run.1) ]

-- ([eE][-+]?\d+)?
unfoldable pub exponent : List Char → List Char × List Char
exponent (c ∷ (d ∷ cs)) =
    if code c == 101 || code c == 69
    then (if code d == 43 || code d == 45
        then some_digits (c ∷ (d ∷ [])) cs (c ∷ (d ∷ cs))
        else some_digits (c ∷ []) (d ∷ cs) (c ∷ (d ∷ cs)))
    else ([], c ∷ (d ∷ cs))
exponent cs = ([], cs)

abbrev pub sign_text : Bool → String
sign_text true = "-"
sign_text false = ""

-- int(sign + digits)
abbrev pub signed : Bool → ℕ → ℤ
signed false n = pos n
signed true zero = pos 0
signed true (suc n) = negsuc n

-- The value of what `whole`, `fraction` and `exponent` read.
unfoldable pub numeral : Hooks → Bool → List Char → List Char → Option Json
unfolding int_digits to_text
numeral h minus digits [] = elim (int_digits 0 false (to_text digits)) [
  | none ↦ none
  | some n ↦ some (num (signed minus n))
]
numeral h minus digits (c ∷ more) =
    some (h.parse_float (sign_text minus <> to_text (digits ++ c ∷ more)))

unfoldable pub unsigned : Hooks → Bool → List Char → Scan Json
unfolding whole fraction exponent numeral
unsigned h minus cs = read_then (whole cs) (λ digits rest.
    let part = fraction rest in
    let power = exponent part.1 in
    elim (numeral h minus digits (part.0 ++ power.0)) [ none ↦ none | some j ↦ some (j, power.1) ])

unfoldable pub number : Hooks → List Char → Scan Json
unfolding unsigned
number h [] = none
number h (c ∷ cs) = if code c == 45 then unsigned h true cs else unsigned h false (c ∷ cs)

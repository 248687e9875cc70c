-- ===== src/Text/Repr.antt =====
-- `repr()` of a text and of a list of texts, as the error messages print them. Characters from 127
-- on are kept as they are, which is right where they are printable.
use oracle_patching.Prelude.{
  ℕ, ◌/◌, ◌%◌, Char, code, String, ◌<>◌, not, ◌&&◌, ◌≡◌, refl, List, [], ◌∷◌, map, ltb, ◌==◌,
  if◌then◌else◌,
}
use oracle_patching.Text.{contains, join}
use oracle_patching.Text.Decimal.{digit_char}

hex2 : ℕ → String
unfolding digit_char
hex2 n = String.◌∷◌ (digit_char (n / 16)) (String.◌∷◌ (digit_char (n % 16)) "")

-- One character between quotes of the given code.
repr_char : ℕ → Char → String
unfolding hex2
repr_char q c =
    let n = code c in
    if n == q
    then "\\" <> String.◌∷◌ c ""
    else if n == 92
    then "\\\\"
    else if n == 9
    then "\\t"
    else if n == 10
    then "\\n"
    else if n == 13
    then "\\r"
    else if ltb n 32
    then "\\x" <> hex2 n
    else String.◌∷◌ c ""

repr_chars : ℕ → String → String
unfolding repr_char
repr_chars q String.[] = ""
repr_chars q (String.◌∷◌ c s) = repr_char q c <> repr_chars q s

-- Single quotes, unless the text holds one and no double quote.
unfoldable pub repr : String → String
unfolding repr_chars contains
repr s =
    if contains "'" s && not (contains "\"" s)
    then "\"" <> repr_chars 34 s <> "\""
    else "'" <> repr_chars 39 s <> "'"

unfoldable pub repr_list : List String → String
unfolding repr join
repr_list names = "[" <> join ", " (map repr names) <> "]"

repr_run : repr_list ("a\n" ∷ "it's" ∷ []) ≡ "['a\\n', \"it's\"]"
unfolding repr_list
repr_run = refl

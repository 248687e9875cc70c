-- ===== src/Json/Quote.antt =====
-- Texts as `json.dumps` writes them, with `ensure_ascii`.
use oracle_patching.Prelude.{
  ℕ, ◌+◌, ◌-◌, ◌/◌, ◌%◌, Char, code, String, ◌<>◌, ◌&&◌, ltb, leb, ◌==◌, if◌then◌else◌,
}
use oracle_patching.Text.Decimal.{digit_char}

unfoldable pub hex4 : ℕ → String
unfolding digit_char
hex4 n = String.◌∷◌ (digit_char (n / 4096)) (
    String.◌∷◌ (digit_char (n / 256 % 16))
      (String.◌∷◌ (digit_char (n / 16 % 16)) (String.◌∷◌ (digit_char (n % 16)) "")))

unfoldable pub escape : Char → String
unfolding hex4
escape c =
    let n = code c in
    if n == 34
    then "\\\""
    else if n == 92
    then "\\\\"
    else if n == 10
    then "\\n"
    else if n == 13
    then "\\r"
    else if n == 9
    then "\\t"
    else if n == 12
    then "\\f"
    else if n == 8
    then "\\b"
    else if leb 32 n && leb n 126
    then String.◌∷◌ c ""
    else if ltb n 65536
    then "\\u" <> hex4 n
    else "\\u" <> hex4 (55296 + (n - 65536) / 1024) <> "\\u" <> hex4 (56320 + (n - 65536) % 1024)

unfoldable pub escapes : String → String
unfolding escape
escapes String.[] = ""
escapes (String.◌∷◌ c s) = escape c <> escapes s

unfoldable pub quote : String → String
unfolding escapes
quote s = "\"" <> escapes s <> "\""

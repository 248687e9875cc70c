-- ===== src/Json/ReadText.antt =====
-- A text that `json.dumps` quotes is read back by `json.loads`.
use oracle_patching.Prelude.{
  ℕ, zero, suc, ◌≤◌, ◌<◌, Char, code, String, ◌<>◌, ◌≡◌, refl, ap, ◌∙◌, false, some, List, [], ◌∷◌,
  ◌++◌, append_assoc, arith, ◌==◌, length, length-append,
}
use oracle_patching.Text.{str_len}
use oracle_patching.Json.Quote.{escape, escapes, quote}
use oracle_patching.Json.Chars.{chars, chars-append}
use oracle_patching.Json.Scan.{Hooks, character, characters, string, read_then}
use oracle_patching.Json.ReadChar.{escape-Reads}

length-escapes : (h : Hooks) (s : String) → str_len s ≤ length (chars (escapes s))
unfolding escapes chars
length-escapes h String.[] = omega arith
length-escapes h (String.◌∷◌ c s) =
    let more = length-escapes h s in
    let r = escape-Reads h c in
    rw (chars-append (escape c) (escapes s), r.written)
      (omega (arith, more, length-append r.others (chars (escapes s))))

characters-step :
    (h : Hooks) (f : ℕ) (c d : Char) (cs rest : List Char)
    → (code c == 34) ≡ false
    → character h c cs ≡ some (d, rest)
    → characters h (suc f) (c ∷ cs)
      ≡ read_then (characters h f rest) (λ s after. some (String.◌∷◌ d s, after))
unfolding characters
characters-step h f c d cs rest o e = rw (characters, o, e) refl

characters-escapes :
    (h : Hooks) (s : String) (f : ℕ) (rest : List Char)
    → str_len s < f
    → characters h f (chars (escapes s) ++ "\"" ∷ rest) ≡ some (s, rest)
unfolding escapes chars
characters-escapes h s zero rest l = absurd (omega arith)
characters-escapes h String.[] (suc f) rest l = unfold characters in refl
characters-escapes h (String.◌∷◌ c s) (suc f) rest l =
    let r = escape-Reads h c in
    let after = "\"" ∷ rest in
    rw (
      chars-append (escape c) (escapes s),
      r.written,
      append_assoc r.others (chars (escapes s)) after,
      characters-step h f r.first c _ _ r.opens (r.reads (chars (escapes s) ++ after)),
      characters-escapes h s f rest (omega arith),
    )

-- What follows the opening quotation mark of a quoted text is read as that text.
pub string-escapes :
    (h : Hooks) (s : String) (rest : List Char)
    → string h (chars (escapes s) ++ "\"" ∷ rest) ≡ some (s, rest)
unfolding string
string-escapes h s rest =
    characters-escapes h s _ rest
      (rw (length-append (chars (escapes s)) ("\"" ∷ rest)) (omega (arith, length-escapes h s)))

pub chars-quote : (s : String) → chars (quote s) ≡ "\"" ∷ (chars (escapes s) ++ "\"" ∷ [])
unfolding quote chars
chars-quote s =
    chars-append "\"" (escapes s <> "\"") ∙ ap (λ cs. "\"" ∷ cs) (chars-append (escapes s) "\"")

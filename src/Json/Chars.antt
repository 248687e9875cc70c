-- ===== src/Json/Chars.antt =====
-- Texts as lists of characters.
use oracle_patching.Prelude.{Char, String, ◌<>◌, ◌≡◌, refl, ap, ◌∙◌, List, [], ◌∷◌, ◌++◌}
use text.Mathlib.TextLemmas.{nil-append, cons-append}

unfoldable pub chars : String → List Char
chars String.[] = []
chars (String.◌∷◌ c s) = c ∷ chars s

unfoldable pub to_text : List Char → String
to_text [] = ""
to_text (c ∷ cs) = String.◌∷◌ c (to_text cs)

pub to_text-chars : (s : String) → to_text (chars s) ≡ s
unfolding chars to_text
to_text-chars String.[] = refl
to_text-chars (String.◌∷◌ c s) = ap (String.◌∷◌ c) (to_text-chars s)

pub chars-append : (s t : String) → chars (s <> t) ≡ chars s ++ chars t
unfolding chars
chars-append String.[] t = ap chars (nil-append t)
chars-append (String.◌∷◌ c s) t = ap chars (cons-append c s t) ∙ ap (λ l. c ∷ l) (chars-append s t)

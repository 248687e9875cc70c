-- ===== src/Json/ReadIndented.antt =====
-- An indented object with one member that is a text is read back.
use oracle_patching.Prelude.{
  ℕ, suc, Char, String, ◌<>◌, ◌≡◌, refl, ap, ◌∙◌, false, some, List, [], ◌∷◌, ◌++◌, append_assoc,
  length,
}
use oracle_patching.Text.{join}
use oracle_patching.Json.{str, field, end, object}
use oracle_patching.Json.Indent.{dumps_indented, enclosed, newline}
use oracle_patching.Json.Quote.{quote, escapes}
use oracle_patching.Json.Chars.{chars, chars-append}
use oracle_patching.Json.Scan.{Hooks, skip}
use oracle_patching.Json.Read.{loads, whole_text, value, members, follow, after, dict_from, put}
use oracle_patching.Json.ReadText.{string-escapes, chars-quote}
use oracle_patching.Json.ReadSteps.{value-object, members-closed, value-quoted}

module _ (k v : String) where
  abbrev closing : List Char
  closing = "\n" ∷ ("}" ∷ [])

  -- What follows the name of the member, and the whole from behind its opening quotation mark.
  abbrev behind_key : List Char
  behind_key = " " ∷ ("\"" ∷ (chars (escapes v) ++ "\"" ∷ closing))

  abbrev inside : List Char
  inside = chars (escapes k) ++ "\"" ∷ (":" ∷ behind_key)

  text-shape :
      dumps_indented false 0 (object ((k, str v) ∷ []))
      ≡ "{" <> ("\n  " <> ((quote k <> (": " <> quote v)) <> ("\n" <> "}")))
  unfolding dumps_indented enclosed newline join
  text-shape = refl

  quoted :
      (s : String) (cs : List Char)
      → chars (quote s) ++ cs ≡ "\"" ∷ (chars (escapes s) ++ "\"" ∷ cs)
  quoted s cs =
      ap (λ l. l ++ cs) (chars-quote s)
      ∙ ap (λ l. "\"" ∷ l) (append_assoc (chars (escapes s)) ("\"" ∷ []) cs)

  chars-text :
      chars (dumps_indented false 0 (object ((k, str v) ∷ [])))
      ≡ "{" ∷ ("\n" ∷ (" " ∷ (" " ∷ ("\"" ∷ inside))))
  unfolding chars
  chars-text =
      ap chars text-shape
      ∙ chars-append "{" _
      ∙ ap (λ l. "{" ∷ l)
          (chars-append "\n  " _
            ∙ ap (λ l. "\n" ∷ (" " ∷ (" " ∷ l)))
                (chars-append (quote k <> (": " <> quote v)) ("\n" <> "}")
                  ∙ ap (λ l. l ++ closing)
                      (chars-append (quote k) (": " <> quote v)
                        ∙ ap (λ l. chars (quote k) ++ l) (chars-append ": " (quote v)))
                  ∙ append_assoc (chars (quote k)) (":" ∷ (" " ∷ chars (quote v))) closing
                  ∙ quoted k (":" ∷ (" " ∷ (chars (quote v) ++ closing)))
                  ∙ ap (λ l. "\"" ∷ (chars (escapes k) ++ "\"" ∷ (":" ∷ (" " ∷ l))))
                      (quoted v closing)))

  members-inside :
      (h : Hooks) (f : ℕ) → members h (suc (suc f)) ("\"" ∷ inside) ≡ some (field k (str v) end, [])
  unfolding skip follow
  members-inside h f =
      members-closed h (suc f) k (str v) inside behind_key closing []
        (string-escapes h k (":" ∷ behind_key))
        (value-quoted h f v _ closing (string-escapes h v closing)) refl

  value-text :
      (h : Hooks) (f : ℕ)
      → value h (suc (suc (suc f))) ("{" ∷ ("\n" ∷ (" " ∷ (" " ∷ ("\"" ∷ inside)))))
        ≡ some (object ((k, str v) ∷ []), [])
  unfolding skip after dict_from put
  value-text h f =
      value-object h (suc (suc f)) ("\n" ∷ (" " ∷ (" " ∷ ("\"" ∷ inside)))) [] (field k (str v) end)
        refl (members-inside h f)

  -- `json.loads(json.dumps({k: v}, indent=2))` is the dict again, where `v` is a text.
  pub loads-dumps_indented :
      (h : Hooks)
      → loads h (dumps_indented false 0 (object ((k, str v) ∷ [])))
        ≡ some (object ((k, str v) ∷ []))
  unfolding loads whole_text skip
  loads-dumps_indented h = rw chars-text (ap whole_text (value-text h (suc (suc (length inside)))))

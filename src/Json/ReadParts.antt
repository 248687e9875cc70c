-- ===== src/Json/ReadParts.antt =====
-- The parts of a text that `json.dumps` writes are read back by `json.loads`.
use oracle_patching.Prelude.{
  ℕ, zero, suc, ◌≤◌, ◌<◌, Char, String, ◌<>◌, ◌≡◌, refl, ap, ◌∙◌, true, false, some, List, [], ◌∷◌,
  ◌++◌, map, append_assoc, arith, if◌then◌else◌, length,
}
use oracle_patching.Text.{join}
use oracle_patching.Json.{
  Json, Items, Fields, null, bool, str, arr, obj, nil, cons, end, field, Separators, dumps,
  dump_items, dump_fields, member, sort_keys,
}
use oracle_patching.Json.Quote.{quote, escapes}
use oracle_patching.Json.Chars.{chars}
use oracle_patching.Json.Scan.{Hooks, skip}
use oracle_patching.Json.Read.{
  whole_text, value, elements, members, scalar, first_literal, strip_prefix,
}
use oracle_patching.Json.ReadText.{chars-quote, string-escapes}
use oracle_patching.Json.ReadNumber.{stops}
use oracle_patching.Json.ReadSteps.{
  value-quoted, value-array, value-object, elements-last, elements-more, members-last, members-more,
}
use oracle_patching.Json.Distinct.{DistinctFields, dict_from-DistinctFields}
use oracle_patching.Json.Opens.{
  quote-Opens, Opens-append, after-Opens_brace, Opens, dumps-Opens, elements-Opens, skip-Opens,
  after-Opens, length-Opens, chars-parts, length-parts, chars-brackets, length-brackets,
}

-- Separators that are a comma and a colon, with blanks behind them, and keys in the order of the dict.
pub record Gaps (p : Separators) : Type 0 where
  pub item_gap : List Char
  pub key_gap : List Char
  pub item_written : chars p.item ≡ "," ∷ item_gap
  pub key_written : chars p.key ≡ ":" ∷ key_gap
  pub item_blank : (cs : List Char) → skip (item_gap ++ cs) ≡ skip cs
  pub key_blank : (cs : List Char) → skip (key_gap ++ cs) ≡ skip cs
  pub unsorted : p.sorted ≡ false

pub literal-value :
    (h : Hooks) (f : ℕ) (rest : List Char)
    → (value h (suc f) (chars "null" ++ rest) ≡ some (null, rest))
      × (value h (suc f) (chars "true" ++ rest) ≡ some (bool true, rest))
      × (value h (suc f) (chars "false" ++ rest) ≡ some (bool false, rest))
unfolding value scalar first_literal strip_prefix chars
literal-value h f rest = (refl, refl, refl)

pub empty-value :
    (h : Hooks) (f : ℕ) (rest : List Char)
    → (value h (suc f) (chars "[]" ++ rest) ≡ some (arr nil, rest))
      × (value h (suc f) (chars "{}" ++ rest) ≡ some (obj end, rest))
unfolding value skip chars
empty-value h f rest = (refl, refl)

pub whole_text-blank :
    (j : Json) (cs : List Char) → skip cs ≡ [] → whole_text (some (j, cs)) ≡ some j
unfolding whole_text
whole_text-blank j cs e = rw (whole_text, e) refl

module _ (h : Hooks) (p : Separators) (gaps : Gaps p) where
  abbrev body_of_items : Json → Items → String
  body_of_items x xs = join p.item (dump_items p (cons x xs))

  abbrev body_of_fields : String → Json → Fields → String
  body_of_fields k v fs = join p.item (map (member p) (dump_fields p (field k v fs)))

  -- `value` reads `j` where its text stands in front.
  abbrev pub Reads : Json → Type 0
  Reads j =
      (f : ℕ) (rest : List Char)
      → stops rest ≡ true
      → length (chars (dumps p j)) ≤ f
      → value h f (chars (dumps p j) ++ rest) ≡ some (j, rest)

  abbrev pub ReadsItems : Json → Items → Type 0
  ReadsItems x xs =
      (f : ℕ) (rest : List Char)
      → length (chars (body_of_items x xs)) < f
      → elements h f (chars (body_of_items x xs) ++ "]" ∷ rest) ≡ some (cons x xs, rest)

  abbrev pub ReadsFields : String → Json → Fields → Type 0
  ReadsFields k v fs =
      (f : ℕ) (rest : List Char)
      → length (chars (body_of_fields k v fs)) < f
      → members h f (chars (body_of_fields k v fs) ++ "}" ∷ rest) ≡ some (field k v fs, rest)

  abbrev text_of_field : String → Json → String
  text_of_field k v = member p (k, dumps p v)

  -- A text takes fuel.
  pub with_fuel :
      (j : Json)
      → ((f : ℕ) (rest : List Char)
          → stops rest ≡ true
          → length (chars (dumps p j)) ≤ suc f
          → value h (suc f) (chars (dumps p j) ++ rest) ≡ some (j, rest))
      → Reads j
  with_fuel j r zero rest e l =
      let some_text = length-Opens (dumps p j) (dumps-Opens p j) in absurd (omega arith)
  with_fuel j r (suc f) rest e l = r f rest e l

  pub literal-Reads :
      (j : Json)
      → ((f : ℕ) (rest : List Char) → value h (suc f) (chars (dumps p j) ++ rest) ≡ some (j, rest))
      → Reads j
  literal-Reads j r = with_fuel j (λ f rest e l. r f rest)

  pub str-Reads : (s : String) → Reads (str s)
  str-Reads s = with_fuel (str s) (λ f rest e l.
      unfold dumps in
      ap (λ cs. value h (suc f) (cs ++ rest)) (chars-quote s)
      ∙ ap (λ cs. value h (suc f) ("\"" ∷ cs)) (append_assoc (chars (escapes s)) ("\"" ∷ []) rest)
      ∙ value-quoted h f s _ rest (string-escapes h s rest))

  pub arr-Reads : (x : Json) (xs : Items) → ReadsItems x xs → Reads (arr (cons x xs))
  arr-Reads x xs r = with_fuel (arr (cons x xs)) (λ f rest e l.
      let o = elements-Opens p x xs in
      let body = body_of_items x xs in
      let skipped = skip-Opens body o ("]" ∷ rest) in
      unfold dumps in
      ap (value h (suc f)) (chars-brackets "[" "]" body rest)
      ∙ value-array h f (chars body ++ "]" ∷ rest) rest (cons x xs)
          (rw skipped (after-Opens body o ("]" ∷ rest)))
          (rw skipped (r f rest (omega (arith, length-brackets "[" "]" body)))))

  pub elements-nil-Reads : (x : Json) → Reads x → ReadsItems x nil
  unfolding dumps join
  elements-nil-Reads x r zero rest l = absurd (omega arith)
  elements-nil-Reads x r (suc f) rest l =
      elements-last h f x _ rest (r f ("]" ∷ rest) refl (omega arith))

  pub elements-cons-Reads :
      (x y : Json) (ys : Items) → Reads x → ReadsItems y ys → ReadsItems x (cons y ys)
  unfolding dumps join
  elements-cons-Reads x y ys r more zero rest l = absurd (omega arith)
  elements-cons-Reads x y ys r more (suc f) rest l =
      let body = body_of_items y ys in
      let close = "]" ∷ rest in
      let size = length-parts (dumps p x) p.item body "," gaps.item_gap gaps.item_written in
      ap (elements h (suc f))
        (chars-parts (dumps p x) p.item body "," gaps.item_gap gaps.item_written close)
      ∙ elements-more h f x (cons y ys) _ (gaps.item_gap ++ (chars body ++ close)) rest
          (r f _ refl (omega arith))
          (rw (gaps.item_blank (chars body ++ close), skip-Opens body (elements-Opens p y ys) close)
            (more f rest (omega arith)))

  -- The text of a member in front, up to its value.
  chars-field :
      (k : String) (v : Json) (cs : List Char)
      → chars (text_of_field k v) ++ cs
        ≡ "\"" ∷ (chars (escapes k) ++ "\"" ∷ (":" ∷ (gaps.key_gap ++ (chars (dumps p v) ++ cs))))
  unfolding member
  chars-field k v cs =
      let after = ":" ∷ (gaps.key_gap ++ (chars (dumps p v) ++ cs)) in
      chars-parts (quote k) p.key (dumps p v) ":" gaps.key_gap gaps.key_written cs
      ∙ ap (λ l. l ++ after) (chars-quote k)
      ∙ ap (λ l. "\"" ∷ l) (append_assoc (chars (escapes k)) ("\"" ∷ []) after)

  length-field :
      (k : String) (v : Json) → length (chars (dumps p v)) < length (chars (text_of_field k v))
  unfolding member
  length-field k v =
      rw (length-parts (quote k) p.key (dumps p v) ":" gaps.key_gap gaps.key_written) (omega arith)

  field-Opens : (k : String) (v : Json) (fs : Fields) → Opens (body_of_fields k v fs)
  unfolding dumps join member
  field-Opens k v end = quote-Opens k _
  field-Opens k v (field l w fs) = Opens-append _ _ (quote-Opens k _)

  pub members-end-Reads : (k : String) (v : Json) → Reads v → ReadsFields k v end
  unfolding dumps join
  members-end-Reads k v r zero rest l = absurd (omega arith)
  members-end-Reads k v r (suc f) rest l =
      let after = "}" ∷ rest in
      ap (members h (suc f)) (chars-field k v after)
      ∙ members-last h f k v _ (gaps.key_gap ++ (chars (dumps p v) ++ after)) rest
          (string-escapes h k _)
          (rw
            (
              gaps.key_blank (chars (dumps p v) ++ after),
              skip-Opens (dumps p v) (dumps-Opens p v) after,
            )
            (r f after refl (omega (arith, length-field k v))))

  pub members-field-Reads :
      (k l : String) (v w : Json) (fs : Fields)
      → Reads v
      → ReadsFields l w fs
      → ReadsFields k v (field l w fs)
  unfolding dumps join
  members-field-Reads k l v w fs r more zero rest b = absurd (omega arith)
  members-field-Reads k l v w fs r more (suc f) rest b =
      let body = body_of_fields l w fs in
      let close = "}" ∷ rest in
      let next = "," ∷ (gaps.item_gap ++ (chars body ++ close)) in
      let size = length-parts (text_of_field k v) p.item body "," gaps.item_gap gaps.item_written in
      ap (members h (suc f)) (
        chars-parts (text_of_field k v) p.item body "," gaps.item_gap gaps.item_written close
        ∙ chars-field k v next)
      ∙ members-more h f k v (field l w fs) _ (gaps.key_gap ++ (chars (dumps p v) ++ next))
          (gaps.item_gap ++ (chars body ++ close)) rest (string-escapes h k _)
          (rw
            (
              gaps.key_blank (chars (dumps p v) ++ next),
              skip-Opens (dumps p v) (dumps-Opens p v) next,
            )
            (r f next refl (omega (arith, length-field k v))))
          (rw (gaps.item_blank (chars body ++ close), skip-Opens body (field-Opens l w fs) close)
            (more f rest (omega arith)))

  dumps-obj :
      (k : String) (v : Json) (fs : Fields)
      → dumps p (obj (field k v fs)) ≡ "{" <> (body_of_fields k v fs <> "}")
  unfolding dumps
  dumps-obj k v fs =
      let m = dump_fields p (field k v fs) in
      ap (λ b. "{" <> (join p.item (map (member p) (if b then sort_keys m else m)) <> "}"))
        gaps.unsorted

  pub dumps-end : dumps p (obj end) ≡ "{}"
  unfolding dumps
  dumps-end =
      ap (λ b. "{" <> (join p.item (map (member p) (if b then sort_keys [] else [])) <> "}"))
        gaps.unsorted
      ∙ unfold sort_keys in unfold join in refl

  pub obj-Reads :
      (k : String) (v : Json) (fs : Fields)
      → DistinctFields (field k v fs)
      → ReadsFields k v fs
      → Reads (obj (field k v fs))
  obj-Reads k v fs d r = with_fuel (obj (field k v fs)) (λ f rest e l.
      let o = field-Opens k v fs in
      let body = body_of_fields k v fs in
      let skipped = skip-Opens body o ("}" ∷ rest) in
      ap (λ t. value h (suc f) (chars t ++ rest)) (dumps-obj k v fs)
      ∙ ap (value h (suc f)) (chars-brackets "{" "}" body rest)
      ∙ value-object h f (chars body ++ "}" ∷ rest) rest (field k v fs)
          (rw skipped (after-Opens_brace body o ("}" ∷ rest)))
          (rw skipped (
            r f rest (
              omega (
                arith,
                length-brackets "{" "}" body,
                ap (λ t. length (chars t)) (dumps-obj k v fs),
              ))))
      ∙ ap (λ m. some (obj m, rest)) (dict_from-DistinctFields (field k v fs) d))

-- ===== src/Json/RoundTrip.antt =====
-- `json.loads(json.dumps(value))`
use oracle_patching.Prelude.{
  suc, String, ◌<>◌, ◌≡◌, refl, sym, ap, ◌∙◌, Bool, true, false, some, [], ◌++◌, arith, length,
  length-append,
}
use text.Mathlib.TextLemmas.{append-nil as text_append-nil}
use oracle_patching.Text.{join}
use oracle_patching.Prelude.Int.{ℤ}
use oracle_patching.Json.{
  Json, Items, Fields, null, bool, num, str, arr, obj, nil, cons, end, field, Separators, dumps,
}
use oracle_patching.Json.Chars.{chars, chars-append}
use oracle_patching.Json.Scan.{Hooks, skip}
use oracle_patching.Json.Read.{loads, value}
use oracle_patching.Json.ReadNumber.{stops}
use oracle_patching.Json.Distinct.{Distinct, DistinctItems, DistinctFields}
use oracle_patching.Json.Opens.{dumps-Opens, skip-Opens, value-decimal_ℤ}
use oracle_patching.Json.ReadParts.{
  Gaps, literal-value, empty-value, whole_text-blank, Reads, ReadsItems, ReadsFields, with_fuel,
  literal-Reads, str-Reads, arr-Reads, elements-nil-Reads, elements-cons-Reads, dumps-end,
  obj-Reads, members-end-Reads, members-field-Reads,
}

module _ (h : Hooks) (p : Separators) (gaps : Gaps p) where
  abbrev AllItems : Items → Type 0
  AllItems nil = Unit
  AllItems (cons x xs) = ReadsItems h p gaps x xs

  abbrev AllFields : Fields → Type 0
  AllFields end = Unit
  AllFields (field k v fs) = ReadsFields h p gaps k v fs

  items-Reads : (xs : Items) → AllItems xs → Reads h p gaps (arr xs)
  items-Reads nil r =
      literal-Reads h p gaps (arr nil)
        (λ f rest. unfold dumps in unfold join in (empty-value h f rest).0)
  items-Reads (cons x xs) r = arr-Reads h p gaps x xs r

  cons-Reads : (x : Json) (xs : Items) → Reads h p gaps x → AllItems xs → ReadsItems h p gaps x xs
  cons-Reads x nil r more = elements-nil-Reads h p gaps x r
  cons-Reads x (cons y ys) r more = elements-cons-Reads h p gaps x y ys r more

  fields-Reads : (fs : Fields) → DistinctFields fs → AllFields fs → Reads h p gaps (obj fs)
  fields-Reads end d r = literal-Reads h p gaps (obj end) (λ f rest.
      ap (λ t. value h (suc f) (chars t ++ rest)) (dumps-end h p gaps) ∙ (empty-value h f rest).1)
  fields-Reads (field k v fs) d r = obj-Reads h p gaps k v fs d r

  field-Reads :
      (k : String) (v : Json) (fs : Fields)
      → Reads h p gaps v
      → AllFields fs
      → ReadsFields h p gaps k v fs
  field-Reads k v end r more = members-end-Reads h p gaps k v r
  field-Reads k v (field l w fs) r more = members-field-Reads h p gaps k l v w fs r more

  null-Reads : Reads h p gaps null
  unfolding dumps
  null-Reads = literal-Reads h p gaps null (λ f rest. (literal-value h f rest).0)

  bool-Reads : (b : Bool) → Reads h p gaps (bool b)
  unfolding dumps
  bool-Reads true = literal-Reads h p gaps (bool true) (λ f rest. (literal-value h f rest).1)
  bool-Reads false = literal-Reads h p gaps (bool false) (λ f rest. (literal-value h f rest).2)

  num-Reads : (n : ℤ) → Reads h p gaps (num n)
  unfolding dumps
  num-Reads n = with_fuel h p gaps (num n) (λ f rest e l. value-decimal_ℤ h f n rest e)

  mutual
    value-Reads : (j : Json) → Distinct j → Reads h p gaps j
    value-Reads null d = null-Reads
    value-Reads (bool b) d = bool-Reads b
    value-Reads (num n) d = num-Reads n
    value-Reads (str s) d = str-Reads h p gaps s
    value-Reads (arr xs) d = items-Reads xs (elements-Reads xs d)
    value-Reads (obj fs) d = fields-Reads fs d (members-Reads fs d)

    elements-Reads : (xs : Items) → DistinctItems xs → AllItems xs
    elements-Reads nil d = tt
    elements-Reads (cons x xs) d = cons-Reads x xs (value-Reads x d.0) (elements-Reads xs d.1)

    members-Reads : (fs : Fields) → DistinctFields fs → AllFields fs
    members-Reads end d = tt
    members-Reads (field k v fs) d = field-Reads k v fs (value-Reads v d.1) (members-Reads fs d.2)

  -- What is written without sorting is read back, if no object has a key twice; blanks may follow.
  pub loads-unsorted_blank :
      (j : Json) (tail : String)
      → Distinct j
      → stops (chars tail) ≡ true
      → skip (chars tail) ≡ []
      → loads h (dumps p j <> tail) ≡ some j
  unfolding loads
  loads-unsorted_blank j tail d e b =
      let t = dumps p j in
      let o = dumps-Opens p j in
      let skipped = skip-Opens t o (chars tail) in
      let size = length-append (chars t) (chars tail) in
      let read = value-Reads j d (length (chars t ++ chars tail)) (chars tail) e (omega arith) in
      rw (chars-append t tail, skipped, read) (whole_text-blank j (chars tail) b)

  pub loads-unsorted : (j : Json) → Distinct j → loads h (dumps p j) ≡ some j
  unfolding skip chars
  loads-unsorted j d =
      ap (loads h) (sym (text_append-nil (dumps p j))) ∙ loads-unsorted_blank j "" d refl refl

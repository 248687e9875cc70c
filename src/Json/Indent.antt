-- ===== src/Json/Indent.antt =====
-- `json.dumps(value, indent=2)`.
use oracle_patching.Prelude.{
  ℕ, zero, suc, String, ◌<>◌, ◌≡◌, refl, Bool, true, false, List, [], ◌∷◌, map,
}
use oracle_patching.Prelude.Int.{pos}
use oracle_patching.Text.{join}
use oracle_patching.Text.Decimal.{decimal_ℤ}
use oracle_patching.Json.Quote.{quote}
use oracle_patching.Json.{
  Json, Items, Fields, null, bool, num, str, arr, obj, nil, cons, end, field, object, items,
  sort_keys,
}

-- The line break in front of what stands `depth` levels deep.
unfoldable pub newline : ℕ → String
newline zero = "\n"
newline (suc depth) = newline depth <> "  "

-- The parts of an array or of an object between its brackets; nothing stands in an empty one.
unfoldable pub enclosed : String → String → ℕ → List String → String
unfolding newline join
enclosed left right depth [] = left <> right
enclosed left right depth (p ∷ ps) =
    left
    <> newline (suc depth)
    <> join ("," <> newline (suc depth)) (p ∷ ps)
    <> newline depth
    <> right

abbrev pub indented_member : String × String → String
unfolding quote
indented_member (k, v) = quote k <> ": " <> v

-- `sort` is the `sort_keys` argument.
unfoldable mutual
  unfolding decimal_ℤ quote sort_keys enclosed

  pub dumps_indented : Bool → ℕ → Json → String
  dumps_indented sort depth null = "null"
  dumps_indented sort depth (bool true) = "true"
  dumps_indented sort depth (bool false) = "false"
  dumps_indented sort depth (num n) = decimal_ℤ n
  dumps_indented sort depth (str s) = quote s
  dumps_indented sort depth (arr xs) = enclosed "[" "]" depth (indented_items sort depth xs)
  dumps_indented true depth (obj fs) =
      enclosed "{" "}" depth (map indented_member (sort_keys (indented_fields true depth fs)))
  dumps_indented false depth (obj fs) =
      enclosed "{" "}" depth (map indented_member (indented_fields false depth fs))

  pub indented_items : Bool → ℕ → Items → List String
  indented_items sort depth nil = []
  indented_items sort depth (cons x xs) =
      dumps_indented sort (suc depth) x ∷ indented_items sort depth xs

  pub indented_fields : Bool → ℕ → Fields → List (String × String)
  indented_fields sort depth end = []
  indented_fields sort depth (field k v fs) =
      (k, dumps_indented sort (suc depth) v) ∷ indented_fields sort depth fs

indented_run :
    dumps_indented true 0 (object (("b", arr (items (num (pos 1) ∷ []))) ∷ ("a", arr nil) ∷ []))
    ≡ "{\n  \"a\": [],\n  \"b\": [\n    1\n  ]\n}"
unfolding dumps_indented
indented_run = refl

-- ===== src/Prelude/Dict.antt =====
-- Python dicts keyed by texts, and folders of named files, in the order of insertion.
use oracle_patching.Prelude.{
  String, ◌≡◌, refl, sym, ap, ◌∙◌, inl, inr, Bool, true, false, Option, none, some, List, [], ◌∷◌,
  arith, str_eq, eq_iff, if◌then◌else◌, Bool-cases, All,
}
use Prim.Native.String
use text.Mathlib.Text.{is_lt}
use oracle_patching.Prelude.Sort.{insert_by, sort_by}

abbrev pub Dict {ℓ} : Type ℓ → Type ℓ
Dict V = List (String × V)

-- The first of two options that is there.
abbrev pub or_else {ℓ} : {V : Type ℓ} → Option V → Option V → Option V
or_else none o = o
or_else (some v) o = some v

pub str_eq_sym : (k j : String) → str_eq k j ≡ false → str_eq j k ≡ false
str_eq_sym k j h = elim (Bool-cases (str_eq j k)) [
  | inl same ↦ let e : str_eq k j ≡ true = (eq_iff k j).1 (sym ((eq_iff j k).0 same)) in cc
  | inr other ↦ other
]

module _ {ℓ} {V : Type ℓ} where
  abbrev pub key_of : String × V → String
  key_of e = e.0

  unfoldable pub lookup : String → Dict V → Option V
  lookup k [] = none
  lookup k ((j, v) ∷ d) = let rest = lookup k d in if str_eq j k then some v else rest

  -- `k in d`
  unfoldable pub has : String → Dict V → Bool
  has k [] = false
  has k ((j, v) ∷ d) = let rest = has k d in if str_eq j k then true else rest

  -- `d[k] = v`
  unfoldable pub insert : String → V → Dict V → Dict V
  insert k v [] = (k, v) ∷ []
  insert k v ((j, w) ∷ d) =
      let rest = insert k v d in if str_eq j k then (j, v) ∷ d else (j, w) ∷ rest

  -- The entries whose key passes the test.
  unfoldable pub filter_keys : (String → Bool) → Dict V → Dict V
  filter_keys test [] = []
  filter_keys test ((j, v) ∷ d) =
      let rest = filter_keys test d in if test j then (j, v) ∷ rest else rest

  -- Each entry of the first is assigned, in order, to the second.
  unfoldable pub insert_all : Dict V → Dict V → Dict V
  unfolding insert
  insert_all [] d = d
  insert_all ((k, v) ∷ es) d = insert_all es (insert k v d)

  -- No key stands twice.
  abbrev pub NodupKeys : Dict V → Type ℓ
  NodupKeys [] = Unit
  NodupKeys ((k, v) ∷ d) = (lookup k d ≡ none) × NodupKeys d

  pub lookup-insert :
      (k n : String) (v : V) (d : Dict V)
      → lookup n (insert k v d) ≡ (if str_eq k n then some v else lookup n d)
  unfolding lookup insert
  lookup-insert k n v [] = refl
  lookup-insert k n v ((j, w) ∷ d) =
      ground (arith, eq_iff j k, eq_iff j n, eq_iff k n, lookup-insert k n v d)

  pub lookup-filter_keys :
      (test : String → Bool) (n : String) (d : Dict V)
      → lookup n (filter_keys test d) ≡ (if test n then lookup n d else none)
  unfolding lookup filter_keys
  lookup-filter_keys test n [] = ground arith
  lookup-filter_keys test n ((j, w) ∷ d) = elim (Bool-cases (str_eq j n)) [
    | inl e ↦ ground (arith, lookup-filter_keys test n d, ap test ((eq_iff j n).0 e))
    | inr e ↦ ground (arith, lookup-filter_keys test n d)
  ]

  pub has-lookup : (n : String) (d : Dict V) → (has n d ≡ false) → lookup n d ≡ none
  unfolding lookup has
  has-lookup n [] h = refl
  has-lookup n ((j, w) ∷ d) h = ground (arith, has-lookup n d)

  pub lookup-has : (n : String) (d : Dict V) → lookup n d ≡ none → has n d ≡ false
  unfolding lookup has
  lookup-has n [] h = refl
  lookup-has n ((j, w) ∷ d) h = ground (arith, lookup-has n d)

  lookup-insert_by :
      (k n : String) (v : V) (d : Dict V)
      → lookup k d ≡ none
      → lookup n (insert_by key_of (k, v) d) ≡ (if str_eq k n then some v else lookup n d)
  unfolding lookup insert_by
  lookup-insert_by k n v [] h = refl
  lookup-insert_by k n v ((j, w) ∷ d) h =
      ground (arith, eq_iff j k, eq_iff j n, eq_iff k n, lookup-insert_by k n v d)

  pub lookup-sort_by :
      (n : String) (d : Dict V) → NodupKeys d → lookup n (sort_by key_of d) ≡ lookup n d
  unfolding lookup sort_by
  lookup-sort_by n [] u = refl
  lookup-sort_by n ((k, v) ∷ d) (h, u) =
      lookup-insert_by k n v (sort_by key_of d) (lookup-sort_by k d u ∙ h)
      ∙ ground (arith, lookup-sort_by n d u)

  NodupKeys-insert_by :
      (k : String) (v : V) (d : Dict V)
      → lookup k d ≡ none
      → NodupKeys d
      → NodupKeys (insert_by key_of (k, v) d)
  unfolding lookup insert_by
  NodupKeys-insert_by k v [] h u = (refl, tt)
  NodupKeys-insert_by k v ((j, w) ∷ d) h (h', u) = elim (Bool-cases (is_lt (String.compare j k))) [
    | inl e ↦ rw e (
      lookup-insert_by k j v d (ground arith) ∙ ground (arith, eq_iff j k, eq_iff k j),
      NodupKeys-insert_by k v d (ground arith) u,
    )
    | inr e ↦ rw e (h, (h', u))
  ]

  pub NodupKeys-filter_keys :
      (test : String → Bool) (d : Dict V) → NodupKeys d → NodupKeys (filter_keys test d)
  unfolding filter_keys
  NodupKeys-filter_keys test [] u = tt
  NodupKeys-filter_keys test ((j, w) ∷ d) (h, u) = elim (Bool-cases (test j)) [
    | inl e ↦ rw e (lookup-filter_keys test j d ∙ ground (arith, h), NodupKeys-filter_keys test d u)
    | inr e ↦ rw e (NodupKeys-filter_keys test d u)
  ]

  pub NodupKeys-sort_by : (d : Dict V) → NodupKeys d → NodupKeys (sort_by key_of d)
  unfolding sort_by
  NodupKeys-sort_by [] u = tt
  NodupKeys-sort_by ((k, v) ∷ d) (h, u) =
      NodupKeys-insert_by k v (sort_by key_of d) (lookup-sort_by k d u ∙ h) (NodupKeys-sort_by d u)

  pub NodupKeys-insert : (k : String) (v : V) (d : Dict V) → NodupKeys d → NodupKeys (insert k v d)
  unfolding lookup insert
  NodupKeys-insert k v [] u = (refl, tt)
  NodupKeys-insert k v ((j, w) ∷ d) (h, u) = elim (Bool-cases (str_eq j k)) [
    | inl same ↦ rw same (h, u)
    | inr other ↦
        let apart : str_eq k j ≡ false = str_eq_sym j k other in
        rw other (lookup-insert k j v d ∙ rw apart h, NodupKeys-insert k v d u)
  ]

  pub NodupKeys-insert_all : (es d : Dict V) → NodupKeys d → NodupKeys (insert_all es d)
  unfolding insert_all
  NodupKeys-insert_all [] d u = u
  NodupKeys-insert_all ((k, v) ∷ es) d u =
      NodupKeys-insert_all es (insert k v d) (NodupKeys-insert k v d u)

  pub lookup-insert_all :
      (n : String) (es d : Dict V)
      → NodupKeys es
      → lookup n (insert_all es d) ≡ or_else (lookup n es) (lookup n d)
  unfolding lookup insert_all
  lookup-insert_all n [] d u = refl
  lookup-insert_all n ((k, v) ∷ es) d (h, u) = elim (Bool-cases (str_eq k n)) [
    | inl e ↦
        lookup-insert_all n es (insert k v d) u
        ∙ ap (λ o. or_else o (lookup n (insert k v d)))
            (ap (λ x. lookup x es) (sym ((eq_iff k n).0 e)) ∙ h)
        ∙ lookup-insert k n v d
        ∙ rw e refl
    | inr e ↦
        lookup-insert_all n es (insert k v d) u
        ∙ ap (or_else (lookup n es)) (lookup-insert k n v d)
        ∙ rw e refl
  ]

  -- Each entry is what is found under its key.
  abbrev pub Found : Dict V → String × V → Type ℓ
  Found d e = lookup e.0 d ≡ some e.1

  Found-cons :
      (k : String) (v : V) (d es : Dict V)
      → lookup k d ≡ none
      → All (Found d) es
      → All (Found ((k, v) ∷ d)) es
  unfolding lookup
  Found-cons k v d [] h all = tt
  Found-cons k v d ((j, w) ∷ es) h (first, all) = elim (Bool-cases (str_eq k j)) [
    | inl e ↦
        let missing : lookup j d ≡ none = ap (λ x. lookup x d) (sym ((eq_iff k j).0 e)) ∙ h in cc
    | inr e ↦ (rw e first, Found-cons k v d es h all)
  ]

  pub All-Found : (d : Dict V) → NodupKeys d → All (Found d) d
  unfolding lookup
  All-Found [] u = tt
  All-Found ((k, v) ∷ d) (h, u) = (ground (arith, eq_iff k k), Found-cons k v d d h (All-Found d u))

-- ===== src/Prelude/SortedDict.antt =====
-- Dicts sorted by their keys: two of them that answer alike are equal.
use oracle_patching.Prelude.{
  String, ◌≡◌, refl, sym, ap, ◌∙◌, subst, inl, inr, true, false, none, some, [], ◌∷◌, arith, str_eq,
  eq_iff, Bool-cases,
}
use oracle_patching.Prelude.Dict.{Dict, lookup, key_of, NodupKeys, lookup-sort_by}
use oracle_patching.Prelude.Sort.{insert_by, sort_by}
use oracle_patching.Prelude.Order.{str_lt, str_lt_irrefl, str_lt_trans, str_lt_total}

str_eq-str_lt : (k j : String) → str_lt k j ≡ true → str_eq j k ≡ false
str_eq-str_lt k j h = elim (Bool-cases (str_eq j k)) [
  | inl same ↦
      let i : str_lt k k ≡ true = subst (λ x. str_lt k x ≡ true) ((eq_iff j k).0 same) h in
      let irreflexive = str_lt_irrefl k in cc
  | inr other ↦ other
]

str_eq_refl : (k : String) → str_eq k k ≡ true
str_eq_refl k = (eq_iff k k).1 refl

-- A key that is another and does not come after comes before.
comes_first : (k j : String) → str_eq j k ≡ false → str_lt j k ≡ false → str_lt k j ≡ true
comes_first k j other after = elim (Bool-cases (str_lt k j)) [
  | inl first ↦ first
  | inr not_first ↦
      let e : str_eq j k ≡ true = (eq_iff j k).1 (str_lt_total j k after not_first) in cc
]

module _ {ℓ} {V : Type ℓ} where
  -- Every key of the dict comes after `k`.
  abbrev pub Below : String → Dict V → Type 0
  Below k [] = Unit
  Below k ((j, v) ∷ d) = (str_lt k j ≡ true) × Below k d

  abbrev pub Sorted : Dict V → Type 0
  Sorted [] = Unit
  Sorted ((k, v) ∷ d) = Below k d × Sorted d

  Below-trans : (k j : String) (d : Dict V) → str_lt k j ≡ true → Below j d → Below k d
  Below-trans k j [] h b = tt
  Below-trans k j ((i, v) ∷ d) h (c, b) = (str_lt_trans k j i h c, Below-trans k j d h b)

  pub lookup-Below : (k : String) (d : Dict V) → Below k d → lookup k d ≡ none
  unfolding lookup
  lookup-Below k [] b = refl
  lookup-Below k ((j, v) ∷ d) (h, b) = ground (arith, str_eq-str_lt k j h, lookup-Below k d b)

  Below-insert_by :
      (i k : String) (v : V) (d : Dict V)
      → str_lt i k ≡ true
      → Below i d
      → Below i (insert_by key_of (k, v) d)
  unfolding insert_by
  Below-insert_by i k v [] h b = (h, tt)
  Below-insert_by i k v ((j, w) ∷ d) h (c, b) = elim (Bool-cases (str_lt j k)) [
    | inl before ↦ rw before (c, Below-insert_by i k v d h b)
    | inr after ↦ rw after (h, (c, b))
  ]

  Sorted-insert_by :
      (k : String) (v : V) (d : Dict V)
      → lookup k d ≡ none
      → Sorted d
      → Sorted (insert_by key_of (k, v) d)
  unfolding insert_by lookup
  Sorted-insert_by k v [] h s = (tt, tt)
  Sorted-insert_by k v ((j, w) ∷ d) h (b, s) = elim (Bool-cases (str_eq j k)) [
    | inl same ↦ let e = rw same at h in cc
    | inr other ↦
        let absent : lookup k d ≡ none = rw other at h in
        elim (Bool-cases (str_lt j k)) [
          | inl before ↦
              rw before (Below-insert_by j k v d before b, Sorted-insert_by k v d absent s)
          | inr after ↦
              let first = comes_first k j other after in
              rw after ((first, Below-trans k j d first b), (b, s))
        ]
  ]

  pub Sorted-sort_by : (d : Dict V) → NodupKeys d → Sorted (sort_by key_of d)
  unfolding sort_by
  Sorted-sort_by [] u = tt
  Sorted-sort_by ((k, v) ∷ d) (h, u) =
      Sorted-insert_by k v _ (lookup-sort_by k d u ∙ h) (Sorted-sort_by d u)

  -- A dict whose keys all come after `k` does not answer like one that starts with `k`.
  first_differs :
      (k : String) (v : V) (d e : Dict V) → Below k e → lookup k ((k, v) ∷ d) ≡ lookup k e → ⊥
  unfolding lookup
  first_differs k v d e b same =
      let found : some v ≡ none = sym (rw (str_eq_refl k) refl) ∙ same ∙ lookup-Below k e b in cc

  tails_agree :
      (k : String) (v w : V) (d e : Dict V)
      → Below k d
      → Below k e
      → ((n : String) → lookup n ((k, v) ∷ d) ≡ lookup n ((k, w) ∷ e))
      → (n : String) → lookup n d ≡ lookup n e
  unfolding lookup
  tails_agree k v w d e b c same n = elim (Bool-cases (str_eq k n)) [
    | inl here ↦
        subst (λ x. lookup x d ≡ lookup x e) ((eq_iff k n).0 here)
          (lookup-Below k d b ∙ sym (lookup-Below k e c))
    | inr other ↦ let h = same n in rw other at h
  ]

  -- Two sorted dicts that start with one key.
  heads_agree :
      (k : String) (v w : V) (d e : Dict V) → lookup k ((k, v) ∷ d) ≡ lookup k ((k, w) ∷ e) → v ≡ w
  unfolding lookup
  heads_agree k v w d e same = let h : some v ≡ some w = rw (str_eq_refl k) at same in cc

  pub Sorted-ext :
      (d e : Dict V) → Sorted d → Sorted e → ((n : String) → lookup n d ≡ lookup n e) → d ≡ e
  Sorted-ext [] [] s t same = refl
  Sorted-ext [] ((j, w) ∷ e) s t same = absurd (first_differs j w e [] tt (sym (same j)))
  Sorted-ext ((k, v) ∷ d) [] s t same = absurd (first_differs k v d [] tt (same k))
  Sorted-ext ((k, v) ∷ d) ((j, w) ∷ e) (b, s) (c, t) same = elim (Bool-cases (str_lt k j)) [
    | inl before ↦ absurd (first_differs k v d _ (before, Below-trans k j e before c) (same k))
    | inr not_before ↦ elim (Bool-cases (str_lt j k)) [
      | inl after ↦ absurd (first_differs j w e _ (after, Below-trans j k d after b) (sym (same j)))
      | inr not_after ↦
          subst
            (λ x.
              Below x e
              → ((n : String) → lookup n ((k, v) ∷ d) ≡ lookup n ((x, w) ∷ e))
              → ((k, v) ∷ d) ≡ (x, w) ∷ e)
            (str_lt_total k j not_before not_after)
            (λ c' agree.
              ap (λ x. (k, x) ∷ d) (heads_agree k v w d e (agree k))
              ∙ ap (λ l. (k, w) ∷ l) (Sorted-ext d e s t (tails_agree k v w d e b c' agree)))
            c same
    ]
  ]

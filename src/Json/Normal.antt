-- ===== src/Json/Normal.antt =====
-- A value whose keys are sorted stays as it is when it is sorted again.
use oracle_patching.Prelude.{String, ◌≡◌, refl, sym, ap, ◌∙◌, inl, inr, true, false, Bool-cases}
use oracle_patching.Prelude.Order.{str_lt, str_lt_irrefl, str_lt_trans}
use oracle_patching.Json.{
  Json, Items, Fields, null, bool, num, str, arr, obj, nil, cons, end, field, Separators, dumps,
}
use oracle_patching.Json.Sorted.{
  insert_field, normalize, normalize_items, normalize_fields, unsorted, dumps-normalize,
}

-- Each key stands before the next one, or equals it.
abbrev Ascending : Fields → Type 0
Ascending end = Unit
Ascending (field k v end) = Unit
Ascending (field k v (field l w fs)) = (str_lt l k ≡ false) × Ascending (field l w fs)

-- The values are sorted themselves.
abbrev Normal : Fields → Type 0
Normal end = Unit
Normal (field k v fs) = (normalize v ≡ v) × Normal fs

str_lt_asym : (s t : String) → str_lt s t ≡ true → str_lt t s ≡ false
str_lt_asym s t h = elim (Bool-cases (str_lt t s)) [
  | inl back ↦ let loop = str_lt_trans s t s h back in let none_less = str_lt_irrefl s in cc
  | inr e ↦ e
]

insert_field-Ascending :
    (k : String) (v : Json) (fs : Fields) → Ascending fs → Ascending (insert_field k v fs)
unfolding insert_field
insert_field-Ascending k v end a = tt
insert_field-Ascending k v (field l w end) a = elim (Bool-cases (str_lt l k)) [
  | inl before ↦ rw before (str_lt_asym l k before, tt)
  | inr behind ↦ rw behind (behind, tt)
]
insert_field-Ascending k v (field l w (field m x fs)) (a, as') = elim (Bool-cases (str_lt l k)) [
  | inl before ↦ rw before (elim (Bool-cases (str_lt m k)) [
    | inl further ↦
        let more = insert_field-Ascending k v (field m x fs) as' in
        rw further (a, rw further at more)
    | inr here ↦ rw here (str_lt_asym l k before, (here, as'))
  ])
  | inr behind ↦ rw behind (behind, (a, as'))
]

insert_field-Normal :
    (k : String) (v : Json) (fs : Fields)
    → normalize v ≡ v
    → Normal fs
    → Normal (insert_field k v fs)
unfolding insert_field
insert_field-Normal k v end n ns = (n, tt)
insert_field-Normal k v (field l w fs) n (m, ns) = elim (Bool-cases (str_lt l k)) [
  | inl before ↦ rw before (m, insert_field-Normal k v fs n ns)
  | inr behind ↦ rw behind (n, (m, ns))
]

insert_field-front :
    (k : String) (v : Json) (fs : Fields)
    → Ascending (field k v fs)
    → insert_field k v fs ≡ field k v fs
unfolding insert_field
insert_field-front k v end a = refl
insert_field-front k v (field l w fs) (a, as') = rw a refl

Ascending-tail : (k : String) (v : Json) (fs : Fields) → Ascending (field k v fs) → Ascending fs
Ascending-tail k v end a = tt
Ascending-tail k v (field l w fs) (a, as') = as'

normalize_fields-fixed : (fs : Fields) → Ascending fs → Normal fs → normalize_fields fs ≡ fs
unfolding normalize
normalize_fields-fixed end a n = refl
normalize_fields-fixed (field k v fs) a (n, ns) =
    ap (λ w. insert_field k w (normalize_fields fs)) n
    ∙ ap (insert_field k v) (normalize_fields-fixed fs (Ascending-tail k v fs a) ns)
    ∙ insert_field-front k v fs a

normalize_fields-Ascending : (fs : Fields) → Ascending (normalize_fields fs)
unfolding normalize
normalize_fields-Ascending end = tt
normalize_fields-Ascending (field k v fs) =
    insert_field-Ascending k (normalize v) _ (normalize_fields-Ascending fs)

mutual
  unfolding normalize

  pub normalize_idem : (j : Json) → normalize (normalize j) ≡ normalize j
  normalize_idem (arr xs) = ap arr (normalize_items_idem xs)
  normalize_idem (obj fs) = ap obj (
      normalize_fields-fixed (normalize_fields fs) (normalize_fields-Ascending fs)
        (normalize_fields-Normal fs))
  normalize_idem null = refl
  normalize_idem (bool b) = refl
  normalize_idem (num n) = refl
  normalize_idem (str s) = refl

  normalize_items_idem : (xs : Items) → normalize_items (normalize_items xs) ≡ normalize_items xs
  normalize_items_idem nil = refl
  normalize_items_idem (cons x xs) = rw (normalize_idem x, normalize_items_idem xs) refl

  normalize_fields-Normal : (fs : Fields) → Normal (normalize_fields fs)
  normalize_fields-Normal end = tt
  normalize_fields-Normal (field k v fs) =
      insert_field-Normal k (normalize v) (normalize_fields fs) (normalize_idem v)
        (normalize_fields-Normal fs)

-- A value and its sorted one are written alike.
pub dumps-of_normalize :
    (p : Separators) (j : Json) → p.sorted ≡ true → dumps p (normalize j) ≡ dumps p j
dumps-of_normalize p j sort =
    dumps-normalize p sort (normalize j)
    ∙ ap (dumps (unsorted p)) (normalize_idem j)
    ∙ sym (dumps-normalize p sort j)

-- ===== src/Json/Sorted.antt =====
-- Values with the members of their objects in the order of the keys.
use oracle_patching.Prelude.{
  String, ◌<>◌, ◌≡◌, refl, ap, ◌∙◌, inl, inr, true, false, ◌||◌, some, List, [], ◌∷◌, map, arith,
  str_eq, eq_iff, if◌then◌else◌, Bool-cases,
}
use oracle_patching.Prelude.Order.{str_lt}
use oracle_patching.Text.{join}
use oracle_patching.Json.{
  Json, Items, Fields, null, bool, num, str, arr, obj, nil, cons, end, field, Separators, dumps,
  dump_items, dump_fields, member, ordered, compact, spaced, insert_key, sort_keys,
}
use oracle_patching.Json.Chars.{chars}
use oracle_patching.Json.Scan.{Hooks, skip}
use oracle_patching.Json.Read.{loads}
use oracle_patching.Json.ReadNumber.{stops}
use oracle_patching.Json.Distinct.{has_key, Distinct, DistinctItems, DistinctFields}
use oracle_patching.Json.RoundTrip.{loads-unsorted_blank, loads-unsorted}
use oracle_patching.Json.ReadParts.{Gaps}

unfoldable pub insert_field : String → Json → Fields → Fields
insert_field k v end = field k v end
insert_field k v (field l w fs) =
    let rest = insert_field k v fs in
    if str_lt l k then field l w rest else field k v (field l w fs)

unfoldable mutual
  unfolding insert_field

  -- The value that stands in a text whose keys were sorted.
  pub normalize : Json → Json
  normalize (arr xs) = arr (normalize_items xs)
  normalize (obj fs) = obj (normalize_fields fs)
  normalize j = j

  pub normalize_items : Items → Items
  normalize_items nil = nil
  normalize_items (cons x xs) = cons (normalize x) (normalize_items xs)

  pub normalize_fields : Fields → Fields
  normalize_fields end = end
  normalize_fields (field k v fs) = insert_field k (normalize v) (normalize_fields fs)

-- The separators, without sorting.
abbrev pub unsorted : Separators → Separators
unsorted p = record { item = p.item; key = p.key; sorted = false }

insert_key-dump_fields :
    (p : Separators) (k : String) (v : Json) (fs : Fields)
    → insert_key (k, dumps p v) (dump_fields p fs) ≡ dump_fields p (insert_field k v fs)
unfolding insert_key insert_field dumps
insert_key-dump_fields p k v end = refl
insert_key-dump_fields p k v (field l w fs) = elim (Bool-cases (str_lt l k)) [
  | inl before ↦ rw before (ap (λ m. (l, dumps p w) ∷ m) (insert_key-dump_fields p k v fs))
  | inr behind ↦ rw behind refl
]

module _ (p : Separators) (sort : p.sorted ≡ true) where
  ordered-sort_keys : (m : List (String × String)) → ordered p m ≡ sort_keys m
  unfolding ordered
  ordered-sort_keys m = ap (λ b. if b then sort_keys m else m) sort

  same_member : (e : String × String) → member p e ≡ member (unsorted p) e
  unfolding member
  same_member e = refl

  same_members : (m : List (String × String)) → map (member p) m ≡ map (member (unsorted p)) m
  unfolding member
  same_members m = refl

  mutual
    unfolding dumps sort_keys normalize

    -- To sort the keys while writing is to write the sorted value.
    pub dumps-normalize : (j : Json) → dumps p j ≡ dumps (unsorted p) (normalize j)
    dumps-normalize null = refl
    dumps-normalize (bool true) = refl
    dumps-normalize (bool false) = refl
    dumps-normalize (num n) = refl
    dumps-normalize (str s) = refl
    dumps-normalize (arr xs) = ap (λ ws. "[" <> (join p.item ws <> "]")) (dump_items-normalize xs)
    dumps-normalize (obj fs) =
        ap (λ m. "{" <> (join p.item (map (member p) m) <> "}"))
          (ordered-sort_keys (dump_fields p fs) ∙ dump_fields-normalize fs)
        ∙ ap (λ ms. "{" <> (join p.item ms <> "}"))
            (same_members (dump_fields (unsorted p) (normalize_fields fs)))

    dump_items-normalize :
        (xs : Items) → dump_items p xs ≡ dump_items (unsorted p) (normalize_items xs)
    dump_items-normalize nil = refl
    dump_items-normalize (cons x xs) = rw (dumps-normalize x, dump_items-normalize xs) refl

    dump_fields-normalize :
        (fs : Fields)
        → sort_keys (dump_fields p fs) ≡ dump_fields (unsorted p) (normalize_fields fs)
    dump_fields-normalize end = refl
    dump_fields-normalize (field k v fs) =
        ap (λ t. insert_key (k, t) (sort_keys (dump_fields p fs))) (dumps-normalize v)
        ∙ ap (insert_key (k, dumps (unsorted p) (normalize v))) (dump_fields-normalize fs)
        ∙ insert_key-dump_fields (unsorted p) k (normalize v) (normalize_fields fs)

has_key-insert_field :
    (l k : String) (v : Json) (fs : Fields)
    → has_key l (insert_field k v fs) ≡ (str_eq l k || has_key l fs)
unfolding has_key insert_field
has_key-insert_field l k v end = refl
has_key-insert_field l k v (field m w fs) = ground (arith, has_key-insert_field l k v fs)

insert_field-DistinctFields :
    (k : String) (v : Json) (fs : Fields)
    → has_key k fs ≡ false
    → Distinct v
    → DistinctFields fs
    → DistinctFields (insert_field k v fs)
unfolding insert_field has_key
insert_field-DistinctFields k v end h d ds = (h, d, ds)
insert_field-DistinctFields k v (field l w fs) h d (n, e, ds) = elim (Bool-cases (str_lt l k)) [
  | inl before ↦ rw before (
      (
        ground (arith, has_key-insert_field l k v fs, eq_iff k l, eq_iff l k),
        e,
        insert_field-DistinctFields k v fs (ground arith) d ds,
      ))
  | inr behind ↦ rw behind (h, d, (n, e, ds))
]

has_key-normalize_fields :
    (l : String) (fs : Fields) → has_key l (normalize_fields fs) ≡ has_key l fs
unfolding normalize has_key
has_key-normalize_fields l end = refl
has_key-normalize_fields l (field k v fs) =
    has_key-insert_field l k (normalize v) (normalize_fields fs)
    ∙ ap (λ b. str_eq l k || b) (has_key-normalize_fields l fs)

mutual
  unfolding normalize

  normalize-Distinct : (j : Json) → Distinct j → Distinct (normalize j)
  normalize-Distinct (arr xs) d = normalize_items-Distinct xs d
  normalize-Distinct (obj fs) d = normalize_fields-Distinct fs d
  normalize-Distinct null d = d
  normalize-Distinct (bool b) d = d
  normalize-Distinct (num n) d = d
  normalize-Distinct (str s) d = d

  normalize_items-Distinct : (xs : Items) → DistinctItems xs → DistinctItems (normalize_items xs)
  normalize_items-Distinct nil d = d
  normalize_items-Distinct (cons x xs) (d, ds) =
      (normalize-Distinct x d, normalize_items-Distinct xs ds)

  normalize_fields-Distinct :
      (fs : Fields) → DistinctFields fs → DistinctFields (normalize_fields fs)
  normalize_fields-Distinct end d = d
  normalize_fields-Distinct (field k v fs) (n, d, ds) =
      insert_field-DistinctFields k (normalize v) (normalize_fields fs)
        (has_key-normalize_fields k fs ∙ n) (normalize-Distinct v d)
        (normalize_fields-Distinct fs ds)

-- What is written with sorting is read back as the value with its keys sorted; blanks may follow.
pub loads-sorted_blank :
    (h : Hooks) (p : Separators) (j : Json) (tail : String)
    → p.sorted ≡ true
    → Gaps (unsorted p)
    → Distinct j
    → stops (chars tail) ≡ true
    → skip (chars tail) ≡ []
    → loads h (dumps p j <> tail) ≡ some (normalize j)
loads-sorted_blank h p j tail sort gaps d e b =
    ap (λ t. loads h (t <> tail)) (dumps-normalize p sort j)
    ∙ loads-unsorted_blank h (unsorted p) gaps (normalize j) tail (normalize-Distinct j d) e b

pub loads-sorted :
    (h : Hooks) (p : Separators) (j : Json)
    → p.sorted ≡ true
    → Gaps (unsorted p)
    → Distinct j
    → loads h (dumps p j) ≡ some (normalize j)
loads-sorted h p j sort gaps d =
    ap (loads h) (dumps-normalize p sort j)
    ∙ loads-unsorted h (unsorted p) gaps (normalize j) (normalize-Distinct j d)

-- The gaps of the separators.
pub compact-Gaps : Gaps (unsorted compact)
unfolding chars
compact-Gaps = record {
  item_gap = [];
  key_gap = [];
  item_written = refl;
  key_written = refl;
  item_blank = λ cs. refl;
  key_blank = λ cs. refl;
  unsorted = refl;
}

pub spaced-Gaps : Gaps (unsorted spaced)
unfolding chars skip
spaced-Gaps = record {
  item_gap = " " ∷ [];
  key_gap = " " ∷ [];
  item_written = refl;
  key_written = refl;
  item_blank = λ cs. refl;
  key_blank = λ cs. refl;
  unsorted = refl;
}

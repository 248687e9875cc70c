-- ===== src/Json/Distinct.antt =====
-- Values whose objects have no key twice, as Python's dicts have none.
use oracle_patching.Prelude.{
  String, ◌≡◌, refl, sym, ap, ◌∙◌, Bool, false, ◌||◌, arith, str_eq, eq_iff,
}
use oracle_patching.Json.{Json, Items, Fields, arr, obj, nil, cons, end, field}
use oracle_patching.Json.Read.{put, dict_from}

unfoldable pub has_key : String → Fields → Bool
has_key k end = false
has_key k (field l v fs) = str_eq k l || has_key k fs

abbrev mutual
  pub Distinct : Json → Type 0
  Distinct (arr xs) = DistinctItems xs
  Distinct (obj fs) = DistinctFields fs
  Distinct j = Unit

  pub DistinctItems : Items → Type 0
  DistinctItems nil = Unit
  DistinctItems (cons x xs) = Distinct x × DistinctItems xs

  pub DistinctFields : Fields → Type 0
  DistinctFields end = Unit
  DistinctFields (field k v fs) = (has_key k fs ≡ false) × Distinct v × DistinctFields fs

concat : Fields → Fields → Fields
concat end fs = fs
concat (field k v es) fs = field k v (concat es fs)

-- No key of `fs` stands in the dict.
abbrev Fresh : Fields → Fields → Type 0
Fresh dict end = Unit
Fresh dict (field k v fs) = (has_key k dict ≡ false) × Fresh dict fs

put-concat :
    (k : String) (v : Json) (dict : Fields)
    → has_key k dict ≡ false
    → put k v dict ≡ concat dict (field k v end)
unfolding put has_key concat
put-concat k v end h = refl
put-concat k v (field l w dict) h = ground (arith, put-concat k v dict)

has_key-concat :
    (l k : String) (v : Json) (dict : Fields)
    → has_key l dict ≡ false
    → str_eq k l ≡ false
    → has_key l (concat dict (field k v end)) ≡ false
unfolding has_key concat
has_key-concat l k v end h e = ground (arith, eq_iff k l, eq_iff l k)
has_key-concat l k v (field m w dict) h e = ground (arith, has_key-concat l k v dict)

Fresh-concat :
    (k : String) (v : Json) (dict fs : Fields)
    → Fresh dict fs
    → has_key k fs ≡ false
    → Fresh (concat dict (field k v end)) fs
unfolding has_key
Fresh-concat k v dict end r h = tt
Fresh-concat k v dict (field l w fs) (a, r) h =
    (has_key-concat l k v dict a (ground arith), Fresh-concat k v dict fs r (ground arith))

concat_assoc : (a b c : Fields) → concat (concat a b) c ≡ concat a (concat b c)
unfolding concat
concat_assoc end b c = refl
concat_assoc (field k v a) b c = ap (field k v) (concat_assoc a b c)

concat-end : (a : Fields) → concat a end ≡ a
unfolding concat
concat-end end = refl
concat-end (field k v a) = ap (field k v) (concat-end a)

dict_from-concat :
    (dict fs : Fields) → Fresh dict fs → DistinctFields fs → dict_from dict fs ≡ concat dict fs
unfolding dict_from
dict_from-concat dict end r d = sym (concat-end dict)
dict_from-concat dict (field k v fs) (a, r) (n, d, ds) =
    ap (λ m. dict_from m fs) (put-concat k v dict a)
    ∙ dict_from-concat (concat dict (field k v end)) fs (Fresh-concat k v dict fs r n) ds
    ∙ concat_assoc dict (field k v end) fs
    ∙ unfold concat in refl

Fresh-end : (fs : Fields) → Fresh end fs
unfolding has_key
Fresh-end end = tt
Fresh-end (field k v fs) = (refl, Fresh-end fs)

-- A dict that is built from members of distinct keys has these members, in their order.
pub dict_from-DistinctFields : (fs : Fields) → DistinctFields fs → dict_from end fs ≡ fs
dict_from-DistinctFields fs d = dict_from-concat end fs (Fresh-end fs) d ∙ unfold concat in refl

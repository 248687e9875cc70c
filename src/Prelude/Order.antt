-- ===== src/Prelude/Order.antt =====
-- The order of texts, by code points.
use oracle_patching.Prelude.{
  compare, Ordering, Char, code, String, ◌≡◌, refl, sym, ap, ◌∙◌, Bool, true, false, ◌&&◌, ◌||◌,
  arith, ltb, ◌==◌,
}
use text.Mathlib.Text.{is_lt, is_eq}
use text.Mathlib.TextPositions.{compare_refl, compare_self}
use text.Mathlib.TextEquality.{codes_equal}
use Prim.Native.String
use Prim.Native.String.compare as text_compare

-- `s < t`
abbrev pub str_lt : String → String → Bool
str_lt s t = is_lt (String.compare s t)

pub str_lt_irrefl : (s : String) → str_lt s s ≡ false
str_lt_irrefl s = ap is_lt (compare_refl s)

then_lt : (o r : Ordering) → is_lt (String.then o r) ≡ is_lt o || (is_eq o && is_lt r)
then_lt Ordering.lt r = refl
then_lt Ordering.eq r = refl
then_lt Ordering.gt r = refl

str_lt-cons :
    (c d : Char) (s t : String)
    → str_lt (String.◌∷◌ c s) (String.◌∷◌ d t)
      ≡ ltb (code c) (code d) || (code c == code d && str_lt s t)
str_lt-cons c d s t =
    ap is_lt (text_compare.cons-cons c d s t)
    ∙ then_lt (compare (code c) (code d)) (String.compare s t)

nil-str_lt : (c : Char) (s : String) → str_lt "" (String.◌∷◌ c s) ≡ true
nil-str_lt c s = ap is_lt (text_compare.nil-cons c s)

str_lt-nil : (s : String) → str_lt s "" ≡ false
str_lt-nil String.[] = refl
str_lt-nil (String.◌∷◌ c s) = ap is_lt (text_compare.cons-nil c s)

pub str_lt_trans : (s t u : String) → str_lt s t ≡ true → str_lt t u ≡ true → str_lt s u ≡ true
str_lt_trans s t String.[] h k = let e = str_lt-nil t in cc
str_lt_trans String.[] t (String.◌∷◌ e u) h k = nil-str_lt e u
str_lt_trans (String.◌∷◌ c s) String.[] (String.◌∷◌ e u) h k =
    let e = str_lt-nil (String.◌∷◌ c s) in cc
str_lt_trans (String.◌∷◌ c s) (String.◌∷◌ d t) (String.◌∷◌ e u) h k =
    ground
      (arith, str_lt_trans s t u, str_lt-cons c d s t, str_lt-cons d e t u, str_lt-cons c e s u)

pub str_lt_total : (s t : String) → str_lt s t ≡ false → str_lt t s ≡ false → s ≡ t
str_lt_total String.[] String.[] h k = refl
str_lt_total String.[] (String.◌∷◌ d t) h k = let e = nil-str_lt d t in cc
str_lt_total (String.◌∷◌ c s) String.[] h k = let e = nil-str_lt c s in cc
str_lt_total (String.◌∷◌ c s) (String.◌∷◌ d t) h k =
    let same : code c ≡ code d = ground (arith, str_lt-cons c d s t, str_lt-cons d c t s) in
    let heads : c ≡ d =
      codes_equal c d (ap (compare (code c)) (sym same) ∙ compare_self (code c)) in
    let tails : s ≡ t =
      str_lt_total s t (ground (arith, str_lt-cons c d s t))
        (ground (arith, str_lt-cons d c t s)) in
    ap (λ x. String.◌∷◌ x s) heads ∙ ap (String.◌∷◌ d) tails

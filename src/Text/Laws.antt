-- ===== src/Text/Laws.antt =====
-- Stripping and splitting texts of digits, and lengths of slices.
use oracle_patching.Prelude.{
  ℕ, zero, suc, ◌/◌, ◌%◌, ◌<◌, Char, String, ◌<>◌, ◌≡◌, refl, ap, ◌∙◌, inl, inr, true, false, some,
  List, [], ◌∷◌, map, arith, ltb, Bool-cases,
}
use text.Mathlib.TextLemmas.{nil-append, cons-append}
use oracle_patching.Text.{
  int_signed, py_int, int_digits, split, join, is_empty, is_space, lstrip, rstrip, strip, is_digit,
  pos,
}
use oracle_patching.Text.Decimal.{
  digit_char, code-digit_char, digits_before, decimal, int_digits-decimal,
}

-- Every character is a decimal digit.
abbrev pub Digits : String → Type 0
Digits String.[] = Unit
Digits (String.◌∷◌ c s) = (is_digit c ≡ true) × Digits s

digit_char-is_digit : (n : ℕ) → n < 10 → is_digit (digit_char n) ≡ true
digit_char-is_digit n h = ground (arith, code-digit_char n h)

digits_before-Digits : (f n : ℕ) (rest : String) → Digits rest → Digits (digits_before f n rest)
unfolding digits_before
digits_before-Digits zero n rest d = d
digits_before-Digits (suc f) n rest d = elim (Bool-cases (ltb n 10)) [
  | inl small ↦ rw small (digit_char-is_digit n (ground arith), d)
  | inr large ↦
      rw large (digits_before-Digits f (n / 10) _ (digit_char-is_digit (n % 10) (omega arith), d))
]

pub decimal-Digits : (n : ℕ) → Digits (decimal n)
unfolding decimal
decimal-Digits n = digits_before-Digits (suc n) n "" tt

digits_before-ne-nil :
    (f n : ℕ) (rest : String) → is_empty rest ≡ false → is_empty (digits_before f n rest) ≡ false
unfolding digits_before
digits_before-ne-nil zero n rest h = h
digits_before-ne-nil (suc f) n rest h = elim (Bool-cases (ltb n 10)) [
  | inl small ↦ rw small
  | inr large ↦ rw large (digits_before-ne-nil f (n / 10) _ refl)
]

pub decimal-ne-nil : (n : ℕ) → is_empty (decimal n) ≡ false
unfolding decimal digits_before
decimal-ne-nil n = elim (Bool-cases (ltb n 10)) [
  | inl small ↦ rw small
  | inr large ↦ rw large (digits_before-ne-nil n (n / 10) _ refl)
]

is_space-of_digit : (c : Char) → is_digit c ≡ true → is_space c ≡ false
unfolding is_space
is_space-of_digit c h = ground arith

rstrip-of_Digits : (s : String) → Digits s → rstrip s ≡ s
unfolding rstrip
rstrip-of_Digits String.[] d = refl
rstrip-of_Digits (String.◌∷◌ c s) (h, d) =
    rw (is_space-of_digit c h) (ap (String.◌∷◌ c) (rstrip-of_Digits s d))

lstrip-of_Digits : (s : String) → Digits s → lstrip s ≡ s
unfolding lstrip
lstrip-of_Digits String.[] d = refl
lstrip-of_Digits (String.◌∷◌ c s) (h, d) = rw (is_space-of_digit c h)

strip-of_Digits : (s : String) → Digits s → strip s ≡ s
unfolding strip
strip-of_Digits s d = rw (lstrip-of_Digits s d) (rstrip-of_Digits s d)

int_signed-of_Digits :
    (s : String) (n : ℕ)
    → Digits s
    → is_empty s ≡ false
    → int_digits 0 false s ≡ some n
    → int_signed s ≡ some (pos n)
unfolding int_signed
int_signed-of_Digits String.[] n d e h = cc
int_signed-of_Digits (String.◌∷◌ c s) n (hd, d) e h = ground arith

-- `int(str(n)) == n`
pub py_int-decimal : (n : ℕ) → py_int (decimal n) ≡ some (pos n)
unfolding py_int
py_int-decimal n = rw (strip-of_Digits (decimal n) (decimal-Digits n)) (
    int_signed-of_Digits (decimal n) n (decimal-Digits n) (decimal-ne-nil n)
      (int_digits-decimal n false))

abbrev pub dot : Char
dot = "."

split-dot-Digits : (s : String) → Digits s → split dot s ≡ s ∷ []
unfolding split
split-dot-Digits String.[] d = refl
split-dot-Digits (String.◌∷◌ c s) (h, d) = rw (split-dot-Digits s d) (ground arith)

split-dot-append : (s t : String) → Digits s → split dot (s <> "." <> t) ≡ s ∷ split dot t
unfolding split
split-dot-append String.[] t d = rw (nil-append, cons-append dot "" t, nil-append)
split-dot-append (String.◌∷◌ c s) t (h, d) =
    rw (cons-append c s ("." <> t), split-dot-append s t d) (ground arith)

-- Splitting at the dots undoes the joining of numerals.
pub split-join-decimal :
    (n : ℕ) (ns : List ℕ) → split dot (join "." (map decimal (n ∷ ns))) ≡ map decimal (n ∷ ns)
unfolding join
split-join-decimal n [] = split-dot-Digits (decimal n) (decimal-Digits n)
split-join-decimal n (m ∷ ns) =
    split-dot-append (decimal n) (join "." (map decimal (m ∷ ns))) (decimal-Digits n)
    ∙ ap (λ l. decimal n ∷ l) (split-join-decimal m ns)

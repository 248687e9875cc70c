-- ===== src/Json/ReadNumber.antt =====
-- A number that `json.dumps` writes is read back by `json.loads`.
use oracle_patching.Prelude.{
  ℕ, zero, suc, ◌/◌, ◌<◌, Char, code, String, ◌≡◌, refl, ap, ◌∙◌, inl, inr, Bool, true, false, not,
  ◌&&◌, ◌||◌, some, List, [], ◌∷◌, ◌++◌, arith, ltb, leb, ◌==◌, Bool-cases,
}
use oracle_patching.Prelude.Int.{ℤ, pos, negsuc}
use oracle_patching.Text.{is_digit}
use oracle_patching.Text.Decimal.{
  digit_char, code-digit_char, digits_before, decimal, decimal_ℤ, int_digits-decimal,
}
use oracle_patching.Text.Laws.{Digits, decimal-Digits}
use oracle_patching.Json.{num}
use oracle_patching.Json.Chars.{chars, to_text-chars, chars-append}
use oracle_patching.Json.Scan.{read_then-some, Hooks}
use oracle_patching.Json.Numeral.{
  digit_run, whole, fraction, exponent, numeral, unsigned, number, signed,
}

-- No number goes on here.
abbrev pub stops : List Char → Bool
stops [] = true
stops (c ∷ cs) = let n = code c in not (is_digit c || n == 46 || n == 101 || n == 69)

-- A digit stands in front.
abbrev pub starts_digit : String → Bool
starts_digit String.[] = false
starts_digit (String.◌∷◌ c s) = is_digit c

-- A digit other than 0 stands in front.
abbrev positive : String → Bool
positive String.[] = false
positive (String.◌∷◌ c s) = leb 49 (code c) && leb (code c) 57

digits_before-positive :
    (f n : ℕ) (rest : String) → 0 < n → n < f → positive (digits_before f n rest) ≡ true
unfolding digits_before
digits_before-positive zero n rest h l = absurd (omega arith)
digits_before-positive (suc f) n rest h l = elim (Bool-cases (ltb n 10)) [
  | inl small ↦ rw small (ground (arith, code-digit_char n (ground arith)))
  | inr large ↦ rw large (digits_before-positive f (n / 10) _ (ground arith) (ground arith))
]

decimal-positive : (n : ℕ) → positive (decimal (suc n)) ≡ true
unfolding decimal
decimal-positive n = digits_before-positive (suc (suc n)) (suc n) "" (omega arith) (omega arith)

pub positive-starts_digit : (s : String) → positive s ≡ true → starts_digit s ≡ true
positive-starts_digit (String.◌∷◌ c s) h = ground arith
positive-starts_digit String.[] h = h

pub decimal-starts_digit : (n : ℕ) → starts_digit (decimal n) ≡ true
decimal-starts_digit zero = unfold decimal in unfold digits_before in unfold digit_char in refl
decimal-starts_digit (suc n) = positive-starts_digit (decimal (suc n)) (decimal-positive n)

digit_run-stop : (rest : List Char) → stops rest ≡ true → digit_run rest ≡ ([], rest)
unfolding digit_run
digit_run-stop [] h = refl
digit_run-stop (c ∷ cs) h = ground arith

digit_run-Digits :
    (s : String) (rest : List Char)
    → Digits s
    → stops rest ≡ true
    → digit_run (chars s ++ rest) ≡ (chars s, rest)
unfolding digit_run chars
digit_run-Digits String.[] rest d h = digit_run-stop rest h
digit_run-Digits (String.◌∷◌ c s) rest (x, d) h = rw (x, digit_run-Digits s rest d h)

fraction-stop : (rest : List Char) → stops rest ≡ true → fraction rest ≡ ([], rest)
unfolding fraction
fraction-stop [] h = refl
fraction-stop (c ∷ []) h = refl
fraction-stop (c ∷ (d ∷ cs)) h = ground arith

exponent-stop : (rest : List Char) → stops rest ≡ true → exponent rest ≡ ([], rest)
unfolding exponent
exponent-stop [] h = refl
exponent-stop (c ∷ []) h = refl
exponent-stop (c ∷ (d ∷ cs)) h = ground arith

not_zero : (c : Char) → (leb 49 (code c) && leb (code c) 57) ≡ true → (code c == 48) ≡ false
not_zero c h = ground arith

whole-positive :
    (s : String) (rest : List Char)
    → positive s ≡ true
    → Digits s
    → stops rest ≡ true
    → whole (chars s ++ rest) ≡ some (chars s, rest)
unfolding whole
whole-positive String.[] rest p d h = unfold chars in cc
whole-positive (String.◌∷◌ c s) rest p (x, d) h =
    unfold chars in
    unfold digit_run in rw (whole, not_zero c p, x, digit_run-Digits s rest d h) refl

whole-decimal :
    (n : ℕ) (rest : List Char)
    → stops rest ≡ true
    → whole (chars (decimal n) ++ rest) ≡ some (chars (decimal n), rest)
whole-decimal zero rest h =
    unfold whole in
    unfold chars in unfold decimal in unfold digits_before in unfold digit_char in refl
whole-decimal (suc n) rest h =
    whole-positive (decimal (suc n)) rest (decimal-positive n) (decimal-Digits (suc n)) h

unsigned-decimal :
    (h : Hooks) (minus : Bool) (n : ℕ) (rest : List Char)
    → stops rest ≡ true
    → unsigned h minus (chars (decimal n) ++ rest) ≡ some (num (signed minus n), rest)
unfolding numeral unsigned
unsigned-decimal h minus n rest s =
    read_then-some _ _ _ _ (whole-decimal n rest s)
    ∙ rw (fraction-stop rest s) (
        rw (exponent-stop rest s) (
          rw (to_text-chars (decimal n), int_digits-decimal n false)
            (rw (fraction-stop rest s) (rw (exponent-stop rest s) refl))))

minus-number : (h : Hooks) (cs : List Char) → number h ("-" ∷ cs) ≡ unsigned h true cs
unfolding number
minus-number h cs = refl

digit-number :
    (h : Hooks) (s : String) (rest : List Char)
    → starts_digit s ≡ true
    → number h (chars s ++ rest) ≡ unsigned h false (chars s ++ rest)
unfolding number chars
digit-number h String.[] rest e = cc
digit-number h (String.◌∷◌ c s) rest e = ground arith

-- What `dumps` writes for an integer is read as that integer.
pub number-decimal_ℤ :
    (h : Hooks) (n : ℤ) (rest : List Char)
    → stops rest ≡ true
    → number h (chars (decimal_ℤ n) ++ rest) ≡ some (num n, rest)
unfolding decimal_ℤ
number-decimal_ℤ h (pos n) rest s =
    digit-number h (decimal n) rest (decimal-starts_digit n) ∙ unsigned-decimal h false n rest s
number-decimal_ℤ h (negsuc n) rest s =
    ap (λ cs. number h (cs ++ rest)) (chars-append "-" (decimal (suc n)))
    ∙ unfold chars in minus-number h _ ∙ unsigned-decimal h true (suc n) rest s

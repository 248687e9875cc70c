-- ===== src/Text/Decimal.antt =====
-- Decimal numerals: `str()` of an integer, and the digits that `int()` reads back.
use oracle_patching.Prelude.{
  ℕ, zero, suc, ◌+◌, ◌*◌, ◌/◌, ◌%◌, ◌<◌, Char, code, String, ◌<>◌, ◌≡◌, refl, ◌∙◌, Bool, true, some,
  arith, ltb, Bool-cases, inl, inr, if◌then◌else◌,
}
use oracle_patching.Prelude.Int.{ℤ, pos, negsuc}
use oracle_patching.Text.{int_digits}

abbrev pub nth_char : ℕ → String → Char
nth_char n String.[] = "?"
nth_char zero (String.◌∷◌ c s) = c
nth_char (suc n) (String.◌∷◌ c s) = nth_char n s

-- The character of a hexadecimal digit.
unfoldable pub digit_char : ℕ → Char
digit_char n = nth_char n "0123456789abcdef"

-- The digits of `n` in front of `rest`; the fuel `suc n` is enough, since `n` falls.
unfoldable pub digits_before : ℕ → ℕ → String → String
unfolding digit_char
digits_before zero n rest = rest
digits_before (suc f) n rest =
    let more = digits_before f (n / 10) (String.◌∷◌ (digit_char (n % 10)) rest) in
    if ltb n 10 then String.◌∷◌ (digit_char n) rest else more

-- str(n)
unfoldable pub decimal : ℕ → String
unfolding digits_before
decimal n = digits_before (suc n) n ""

-- str() of a Python integer.
unfoldable pub decimal_ℤ : ℤ → String
unfolding decimal
decimal_ℤ (pos n) = decimal n
decimal_ℤ (negsuc n) = "-" <> decimal (suc n)

decimal_run : decimal 19027 ≡ "19027"
unfolding decimal
decimal_run = refl

pub code-digit_char : (n : ℕ) → n < 10 → code (digit_char n) ≡ 48 + n
unfolding digit_char
code-digit_char zero h = refl
code-digit_char (suc zero) h = refl
code-digit_char (suc (suc zero)) h = refl
code-digit_char (suc (suc (suc zero))) h = refl
code-digit_char (suc (suc (suc (suc zero)))) h = refl
code-digit_char (suc (suc (suc (suc (suc zero))))) h = refl
code-digit_char (suc (suc (suc (suc (suc (suc zero)))))) h = refl
code-digit_char (suc (suc (suc (suc (suc (suc (suc zero))))))) h = refl
code-digit_char (suc (suc (suc (suc (suc (suc (suc (suc zero)))))))) h = refl
code-digit_char (suc (suc (suc (suc (suc (suc (suc (suc (suc zero))))))))) h = refl
code-digit_char (suc (suc (suc (suc (suc (suc (suc (suc (suc (suc n)))))))))) h =
    absurd (omega arith)

-- A digit in front extends the number that is read.
int_digits-digit :
    (a n m : ℕ) (after : Bool) (s : String)
    → n < 10
    → a * 10 + n ≡ m
    → int_digits a after (String.◌∷◌ (digit_char n) s) ≡ int_digits m true s
unfolding int_digits
int_digits-digit a n m after s h e = ground (arith, code-digit_char n h)

pub int_digits-digits_before :
    (f n : ℕ) (rest : String) (after : Bool)
    → n < f
    → int_digits 0 after (digits_before f n rest) ≡ int_digits n true rest
unfolding digits_before
int_digits-digits_before zero n rest after h = absurd (omega arith)
int_digits-digits_before (suc f) n rest after h = elim (Bool-cases (ltb n 10)) [
  | inl small ↦ rw small (int_digits-digit 0 n n after rest (ground arith) (omega arith))
  | inr large ↦ rw large (
      int_digits-digits_before f (n / 10) _ after (ground arith)
      ∙ int_digits-digit (n / 10) (n % 10) n true rest (omega arith) (omega arith))
]

-- `int()` reads a printed numeral back.
pub int_digits-decimal : (n : ℕ) (after : Bool) → int_digits 0 after (decimal n) ≡ some n
unfolding decimal int_digits
int_digits-decimal n after = int_digits-digits_before (suc n) n "" after (omega arith)

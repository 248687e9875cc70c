-- ===== src/Json/ReadChar.antt =====
-- A character that `json.dumps` escapes is read back by `json.loads`.
use oracle_patching.Prelude.{
  ℕ, zero, suc, ◌+◌, ◌-◌, ◌*◌, ◌/◌, ◌%◌, ◌<◌, compare, Ordering, Char, code, String, ◌<>◌, ◌≡◌,
  refl, sym, ap, ◌∙◌, ◌⊎◌, inl, inr, Bool, true, false, ◌&&◌, some, List, [], ◌∷◌, ◌++◌,
  append_assoc, arith, ltb, leb, ◌==◌, if◌then◌else◌,
}
use Prim.Native.Char.{char}
use text.Mathlib.TextEquality.{Char-path}
use oracle_patching.Text.Decimal.{digit_char}
use oracle_patching.Json.Quote.{hex4, escape}
use oracle_patching.Json.Chars.{chars, chars-append}
use oracle_patching.Json.Scan.{
  Hooks, ScalarOf, if_scalar, of_code, hex_digit, hex_digits, low_half, unicode, short_escape,
  escaped, character,
}

hex_digit-digit_char : (n : ℕ) → n < 16 → hex_digit (digit_char n) ≡ some n
unfolding hex_digit digit_char
hex_digit-digit_char zero h = refl
hex_digit-digit_char (suc zero) h = refl
hex_digit-digit_char (suc (suc zero)) h = refl
hex_digit-digit_char (suc (suc (suc zero))) h = refl
hex_digit-digit_char (suc (suc (suc (suc zero)))) h = refl
hex_digit-digit_char (suc (suc (suc (suc (suc zero))))) h = refl
hex_digit-digit_char (suc (suc (suc (suc (suc (suc zero)))))) h = refl
hex_digit-digit_char (suc (suc (suc (suc (suc (suc (suc zero))))))) h = refl
hex_digit-digit_char (suc (suc (suc (suc (suc (suc (suc (suc zero)))))))) h = refl
hex_digit-digit_char (suc (suc (suc (suc (suc (suc (suc (suc (suc zero))))))))) h = refl
hex_digit-digit_char (suc (suc (suc (suc (suc (suc (suc (suc (suc (suc zero)))))))))) h = refl
hex_digit-digit_char (suc (suc (suc (suc (suc (suc (suc (suc (suc (suc (suc zero))))))))))) h = refl
hex_digit-digit_char (suc (suc (suc (suc (suc (suc (suc (suc (suc (suc (suc (suc zero))))))))))))
      h =
    refl
hex_digit-digit_char
      (suc (suc (suc (suc (suc (suc (suc (suc (suc (suc (suc (suc (suc zero))))))))))))) h =
    refl
hex_digit-digit_char
      (suc (suc (suc (suc (suc (suc (suc (suc (suc (suc (suc (suc (suc (suc zero)))))))))))))) h =
    refl
hex_digit-digit_char
      (suc (suc (suc (suc (suc (suc (suc (suc (suc (suc (suc (suc (suc (suc (suc zero)))))))))))))))
      h =
    refl
hex_digit-digit_char
      (suc
        (suc (suc (suc (suc (suc (suc (suc (suc (suc (suc (suc (suc (suc (suc (suc n))))))))))))))))
      h =
    absurd (omega arith)

hex_digits-step :
    (k a d : ℕ) (c : Char) (cs : List Char)
    → hex_digit c ≡ some d
    → hex_digits (suc k) a (c ∷ cs) ≡ hex_digits k (a * 16 + d) cs
unfolding hex_digits
hex_digits-step k a d c cs e = rw (hex_digits, e) refl

hex_digits-done : (a : ℕ) (cs : List Char) → hex_digits 0 a cs ≡ some (a, cs)
unfolding hex_digits
hex_digits-done a cs = refl

hex_digits-hex4 :
    (n : ℕ) (rest : List Char)
    → n < 65536
    → hex_digits 4 0 (chars (hex4 n) ++ rest) ≡ some (n, rest)
unfolding hex4 chars
hex_digits-hex4 n rest h =
    hex_digits-step 3 0 (n / 4096) _ _ (hex_digit-digit_char (n / 4096) (omega arith))
    ∙ hex_digits-step 2 _ (n / 256 % 16) _ _ (hex_digit-digit_char (n / 256 % 16) (omega arith))
    ∙ hex_digits-step 1 _ (n / 16 % 16) _ _ (hex_digit-digit_char (n / 16 % 16) (omega arith))
    ∙ hex_digits-step 0 _ (n % 16) _ _ (hex_digit-digit_char (n % 16) (omega arith))
    ∙ hex_digits-done _ rest
    ∙ ap (λ m. some (m, rest)) (omega arith)

if_scalar-scalar :
    (o q r : Ordering) (f : ScalarOf o q r → Char) (d : Char) (p : ScalarOf o q r)
    → if_scalar o q r f d ≡ f p
unfolding if_scalar
if_scalar-scalar Ordering.lt q r f d p = refl
if_scalar-scalar Ordering.eq Ordering.lt Ordering.lt f d p = refl
if_scalar-scalar Ordering.gt Ordering.lt Ordering.lt f d p = refl
if_scalar-scalar Ordering.eq Ordering.lt Ordering.eq f d p = elim p [ ]
if_scalar-scalar Ordering.eq Ordering.lt Ordering.gt f d p = elim p [ ]
if_scalar-scalar Ordering.eq Ordering.eq r f d p = elim p [ ]
if_scalar-scalar Ordering.eq Ordering.gt r f d p = elim p [ ]
if_scalar-scalar Ordering.gt Ordering.lt Ordering.eq f d p = elim p [ ]
if_scalar-scalar Ordering.gt Ordering.lt Ordering.gt f d p = elim p [ ]
if_scalar-scalar Ordering.gt Ordering.eq r f d p = elim p [ ]
if_scalar-scalar Ordering.gt Ordering.gt r f d p = elim p [ ]

of_code-code : (h : Hooks) (c : Char) → of_code h (code c) ≡ c
unfolding of_code
of_code-code h (char n p) =
    if_scalar-scalar (compare n 55296) (compare 57343 n) (compare n 1114112) (λ q. char n q)
      (h.surrogate n) p

scalar-range :
    (n : ℕ) (o q r : Ordering)
    → compare n 55296 ≡ o
    → compare 57343 n ≡ q
    → compare n 1114112 ≡ r
    → ScalarOf o q r
    → (n < 55296) ⊎ ((57343 < n) × (n < 1114112))
scalar-range n Ordering.lt q r e g k p = inl (ground arith)
scalar-range n Ordering.eq Ordering.lt Ordering.lt e g k p = inr (ground arith, ground arith)
scalar-range n Ordering.gt Ordering.lt Ordering.lt e g k p = inr (ground arith, ground arith)
scalar-range n Ordering.eq Ordering.lt Ordering.eq e g k p = elim p [ ]
scalar-range n Ordering.eq Ordering.lt Ordering.gt e g k p = elim p [ ]
scalar-range n Ordering.eq Ordering.eq r e g k p = elim p [ ]
scalar-range n Ordering.eq Ordering.gt r e g k p = elim p [ ]
scalar-range n Ordering.gt Ordering.lt Ordering.eq e g k p = elim p [ ]
scalar-range n Ordering.gt Ordering.lt Ordering.gt e g k p = elim p [ ]
scalar-range n Ordering.gt Ordering.eq r e g k p = elim p [ ]
scalar-range n Ordering.gt Ordering.gt r e g k p = elim p [ ]

code-range : (c : Char) → (code c < 55296) ⊎ ((57343 < code c) × (code c < 1114112))
code-range (char n p) =
    scalar-range n (compare n 55296) (compare 57343 n) (compare n 1114112) refl refl refl p

-- What `dumps` writes for a character is read as that character.
pub record Reads (h : Hooks) (c : Char) (t : String) : Type 0 where
  pub first : Char
  pub others : List Char
  pub written : chars t ≡ first ∷ others
  pub opens : (code first == 34) ≡ false
  pub reads : (rest : List Char) → character h first (others ++ rest) ≡ some (c, rest)

if-Reads :
    (h : Hooks) (c : Char) (b : Bool) (s t : String)
    → (b ≡ true → Reads h c s)
    → (b ≡ false → Reads h c t)
    → Reads h c (if b then s else t)
if-Reads h c true s t p q = p refl
if-Reads h c false s t p q = q refl

module _ (h : Hooks) (c : Char) where
  -- A backslash and one character.
  short :
      (x d : Char)
      → (code x == 117) ≡ false
      → short_escape (code x) ≡ some d
      → code c ≡ code d
      → Reads h c (String.◌∷◌ "\\" (String.◌∷◌ x ""))
  unfolding chars character escaped
  short x d u e k = record {
    first = "\\";
    others = x ∷ [];
    written = refl;
    opens = refl;
    reads = λ rest. rw (u, e) (ap (λ a. some (a, rest)) (Char-path d c (sym k)));
  }

  itself :
      (code c == 34) ≡ false
      → (code c == 92) ≡ false
      → (leb 32 (code c) && leb (code c) 126) ≡ true
      → Reads h c (String.◌∷◌ c "")
  unfolding chars character
  itself q b v = record {
    first = c;
    others = [];
    written = refl;
    opens = q;
    reads = λ rest. ground arith;
  }

  single : (code c < 65536) → Reads h c ("\\u" <> hex4 (code c))
  unfolding chars character escaped unicode
  single small = record {
    first = "\\";
    others = "u" ∷ chars (hex4 (code c));
    written = chars-append "\\u" (hex4 (code c));
    opens = refl;
    reads = λ rest.
        rw (hex_digits-hex4 (code c) rest small, of_code-code h c) (ground (arith, code-range c));
  }

  high : ℕ
  high = 55296 + (code c - 65536) / 1024

  low : ℕ
  low = 56320 + (code c - 65536) % 1024

  pair-of_code : ¬ (code c < 65536) → of_code h (65536 + (high - 55296) * 1024 + (low - 56320)) ≡ c
  unfolding high low
  pair-of_code large = ap (of_code h) (omega arith) ∙ of_code-code h c

  low-range : (low < 65536) × (leb 56320 low ≡ true) × (leb low 57343 ≡ true)
  unfolding low
  low-range = (omega arith, ground arith, ground arith)

  high-range :
      ¬ (code c < 65536) → (high < 65536) × (leb 55296 high ≡ true) × (leb high 56319 ≡ true)
  unfolding high
  high-range large = let bound = code-range c in (omega arith, ground arith, ground arith)

  low_half-hex4 :
      (rest : List Char)
      → ¬ (code c < 65536)
      → low_half h high ("\\" ∷ ("u" ∷ (chars (hex4 low) ++ rest))) ≡ some (c, rest)
  unfolding low_half
  low_half-hex4 rest large =
      let (small, start, stop) = low-range in
      rw (hex_digits-hex4 low rest small, start, stop, pair-of_code large)

  unicode-pair :
      (rest : List Char)
      → ¬ (code c < 65536)
      → unicode h (chars (hex4 high) ++ "\\" ∷ ("u" ∷ (chars (hex4 low) ++ rest))) ≡ some (c, rest)
  unfolding unicode
  unicode-pair rest large =
      let (small, start, stop) = high-range large in
      rw (hex_digits-hex4 high _ small, start, stop) (low_half-hex4 rest large)

  pair : ¬ (code c < 65536) → Reads h c ("\\u" <> hex4 high <> "\\u" <> hex4 low)
  unfolding chars character escaped
  pair large = record {
    first = "\\";
    others = "u" ∷ (chars (hex4 high) ++ "\\" ∷ ("u" ∷ chars (hex4 low)));
    written =
        chars-append "\\u" _
        ∙ ap (λ cs. "\\" ∷ ("u" ∷ cs))
            (chars-append (hex4 high) _
              ∙ ap (λ cs. chars (hex4 high) ++ cs) (chars-append "\\u" _));
    opens = refl;
    reads = λ rest.
        rw (append_assoc (chars (hex4 high)) ("\\" ∷ ("u" ∷ chars (hex4 low))) rest)
          (unicode-pair rest large);
  }

pub escape-Reads : (h : Hooks) (c : Char) → Reads h c (escape c)
unfolding escape short_escape high low
escape-Reads h c =
    let n = code c in
    if-Reads h c (n == 34) _ _ (λ e. short h c "\"" "\"" refl refl (ground arith))
      (λ quot.
        if-Reads h c (n == 92) _ _ (λ e. short h c "\\" "\\" refl refl (ground arith))
          (λ slash.
            if-Reads h c (n == 10) _ _ (λ e. short h c "n" "\n" refl refl (ground arith))
              (λ e.
                if-Reads h c (n == 13) _ _ (λ e. short h c "r" "\r" refl refl (ground arith))
                  (λ e.
                    if-Reads h c (n == 9) _ _ (λ e. short h c "t" "\t" refl refl (ground arith))
                      (λ e.
                        if-Reads h c (n == 12) _ _
                          (λ e. short h c "f" "\u{c}" refl refl (ground arith))
                          (λ e.
                            if-Reads h c (n == 8) _ _
                              (λ e. short h c "b" "\u{8}" refl refl (ground arith))
                              (λ e.
                                if-Reads h c (leb 32 n && leb n 126) _ _ (itself h c quot slash)
                                  (λ e.
                                    if-Reads h c (ltb n 65536) _ _ (λ e. single h c (ground arith))
                                      (λ e. pair h c (ground arith))))))))))

-- ===== src/Json/Opens.antt =====
-- How a text that `json.dumps` writes starts, and how its parts follow each other.
use oracle_patching.Prelude.{
  ℕ, suc, ◌+◌, ◌<◌, Char, code, String, ◌<>◌, ◌≡◌, refl, sym, ap, ◌∙◌, true, false, none, some,
  List, [], ◌∷◌, ◌++◌, append_assoc, arith, ◌==◌, length, length-append,
}
use oracle_patching.Prelude.Int.{ℤ, pos, negsuc}
use oracle_patching.Text.{is_digit, join}
use oracle_patching.Text.Decimal.{decimal, decimal_ℤ}
use oracle_patching.Json.{
  Json, Items, null, bool, num, str, arr, obj, nil, cons, Separators, dumps, dump_items,
}
use oracle_patching.Json.Quote.{quote}
use oracle_patching.Json.Chars.{chars, chars-append}
use oracle_patching.Json.Scan.{Hooks, is_blank, skip}
use oracle_patching.Json.Numeral.{number}
use oracle_patching.Json.Read.{
  value, first_literal, literals, strip_prefix, scalar, start, other, after,
}
use oracle_patching.Json.ReadText.{chars-quote}
use oracle_patching.Json.ReadNumber.{starts_digit, decimal-starts_digit, stops, number-decimal_ℤ}
use oracle_patching.Json.ReadSteps.{value-scalar}

-- A text whose first character is no blank and no closing bracket or brace.
pub record Opens (t : String) : Type 0 where
  pub first : Char
  pub others : List Char
  pub written : chars t ≡ first ∷ others
  pub shown : is_blank first ≡ false
  pub no_bracket : (code first == 93) ≡ false
  pub no_brace : (code first == 125) ≡ false

digit-Opens : (s : String) → starts_digit s ≡ true → Opens s
unfolding chars
digit-Opens String.[] h = cc
digit-Opens (String.◌∷◌ c s) h = record {
  first = c;
  others = chars s;
  written = refl;
  shown = ground arith;
  no_bracket = ground arith;
  no_brace = ground arith;
}

pub Opens-append : (s t : String) → Opens s → Opens (s <> t)
Opens-append s t o = record {
  first = o.first;
  others = o.others ++ chars t;
  written = chars-append s t ∙ ap (λ cs. cs ++ chars t) o.written;
  shown = o.shown;
  no_bracket = o.no_bracket;
  no_brace = o.no_brace;
}

fixed-Opens :
    (c : Char) (cs : List Char) (t : String)
    → chars t ≡ c ∷ cs
    → is_blank c ≡ false
    → (code c == 93) ≡ false
    → (code c == 125) ≡ false
    → Opens t
fixed-Opens c cs t e b o o' = record {
  first = c;
  others = cs;
  written = e;
  shown = b;
  no_bracket = o;
  no_brace = o';
}

pub dumps-Opens : (p : Separators) (j : Json) → Opens (dumps p j)
unfolding dumps chars decimal_ℤ
dumps-Opens p null = fixed-Opens _ _ _ refl refl refl refl
dumps-Opens p (bool true) = fixed-Opens _ _ _ refl refl refl refl
dumps-Opens p (bool false) = fixed-Opens _ _ _ refl refl refl refl
dumps-Opens p (num (pos n)) = digit-Opens (decimal n) (decimal-starts_digit n)
dumps-Opens p (num (negsuc n)) =
    fixed-Opens "-" _ _ (chars-append "-" (decimal (suc n))) refl refl refl
dumps-Opens p (str s) = fixed-Opens "\"" _ _ (chars-quote s) refl refl refl
dumps-Opens p (arr xs) =
    fixed-Opens "[" _ _ (chars-append "[" (join p.item (dump_items p xs) <> "]")) refl refl refl
dumps-Opens p (obj fs) = fixed-Opens "{" _ _ (chars-append "{" _) refl refl refl

pub quote-Opens : (s t : String) → Opens (quote s <> t)
quote-Opens s t = Opens-append (quote s) t (fixed-Opens "\"" _ _ (chars-quote s) refl refl refl)

pub elements-Opens :
    (p : Separators) (x : Json) (xs : Items) → Opens (join p.item (dump_items p (cons x xs)))
unfolding dumps join
elements-Opens p x nil = dumps-Opens p x
elements-Opens p x (cons y ys) = Opens-append (dumps p x) _ (dumps-Opens p x)

skip-shown : (c : Char) (cs : List Char) → is_blank c ≡ false → skip (c ∷ cs) ≡ c ∷ cs
unfolding skip
skip-shown c cs e = rw (skip, e) refl

module _ (t : String) (o : Opens t) (cs : List Char) where
  pub skip-Opens : skip (chars t ++ cs) ≡ chars t ++ cs
  skip-Opens = rw o.written (skip-shown o.first (o.others ++ cs) o.shown)

  pub after-Opens : after 93 (chars t ++ cs) ≡ none
  unfolding after
  after-Opens = rw o.written (rw o.no_bracket refl)

  pub after-Opens_brace : after 125 (chars t ++ cs) ≡ none
  unfolding after
  after-Opens_brace = rw o.written (rw o.no_brace refl)

pub length-Opens : (t : String) → Opens t → 0 < length (chars t)
length-Opens t o = rw o.written (omega arith)

-- Three texts, the middle one a character and blanks.
module _ (s sep t : String) (c : Char) (gap : List Char) (e : chars sep ≡ c ∷ gap) where
  chars-three : chars (s <> (sep <> t)) ≡ chars s ++ c ∷ (gap ++ chars t)
  chars-three =
      chars-append s (sep <> t)
      ∙ ap (λ cs. chars s ++ cs) (chars-append sep t ∙ ap (λ cs. cs ++ chars t) e)

  pub chars-parts :
      (cs : List Char) → chars (s <> (sep <> t)) ++ cs ≡ chars s ++ c ∷ (gap ++ (chars t ++ cs))
  chars-parts cs =
      ap (λ l. l ++ cs) chars-three
      ∙ append_assoc (chars s) (c ∷ (gap ++ chars t)) cs
      ∙ ap (λ l. chars s ++ c ∷ l) (append_assoc gap (chars t) cs)

  pub length-parts :
      length (chars (s <> (sep <> t))) ≡ length (chars s) + suc (length gap + length (chars t))
  length-parts =
      ap length chars-three
      ∙ rw (length-append (chars s) (c ∷ (gap ++ chars t)), length-append gap (chars t)) refl

-- A text between brackets.
module _ (a b : Char) (body : String) where
  chars-enclosed : chars (String.◌∷◌ a "" <> (body <> String.◌∷◌ b "")) ≡ a ∷ (chars body ++ b ∷ [])
  unfolding chars
  chars-enclosed =
      chars-append (String.◌∷◌ a "") _ ∙ ap (λ cs. a ∷ cs) (chars-append body (String.◌∷◌ b ""))

  pub chars-brackets :
      (cs : List Char)
      → chars (String.◌∷◌ a "" <> (body <> String.◌∷◌ b "")) ++ cs ≡ a ∷ (chars body ++ b ∷ cs)
  chars-brackets cs =
      ap (λ l. l ++ cs) chars-enclosed ∙ ap (λ l. a ∷ l) (append_assoc (chars body) (b ∷ []) cs)

  pub length-brackets :
      length (chars (String.◌∷◌ a "" <> (body <> String.◌∷◌ b "")))
      ≡ suc (suc (length (chars body)))
  length-brackets =
      ap length chars-enclosed ∙ rw (length-append (chars body) (b ∷ [])) (omega arith)

-- No literal starts with a digit, or with a minus sign and a digit.
digit_no_literal :
    (h : Hooks) (c : Char) (cs : List Char)
    → is_digit c ≡ true
    → first_literal (literals h) (c ∷ cs) ≡ none
unfolding first_literal strip_prefix chars
digit_no_literal h c cs e = ground arith

minus_no_literal :
    (h : Hooks) (c : Char) (cs : List Char)
    → is_digit c ≡ true
    → first_literal (literals h) ("-" ∷ (c ∷ cs)) ≡ none
unfolding first_literal strip_prefix chars
minus_no_literal h c cs e = ground arith

scalar-number :
    (h : Hooks) (cs : List Char) → first_literal (literals h) cs ≡ none → scalar h cs ≡ number h cs
unfolding scalar
scalar-number h cs e = rw e refl

digit-start : (c : Char) → is_digit c ≡ true → start c ≡ other
digit-start c e = ground arith

digits-value :
    (h : Hooks) (f : ℕ) (s : String) (rest : List Char)
    → starts_digit s ≡ true
    → value h (suc f) (chars s ++ rest) ≡ number h (chars s ++ rest)
unfolding chars
digits-value h f String.[] rest e = cc
digits-value h f (String.◌∷◌ c s) rest e =
    value-scalar h f c _ (digit-start c e) ∙ scalar-number h _ (digit_no_literal h c _ e)

minus-value :
    (h : Hooks) (f : ℕ) (s : String) (rest : List Char)
    → starts_digit s ≡ true
    → value h (suc f) ("-" ∷ (chars s ++ rest)) ≡ number h ("-" ∷ (chars s ++ rest))
unfolding chars
minus-value h f String.[] rest e = cc
minus-value h f (String.◌∷◌ c s) rest e =
    value-scalar h f "-" _ refl ∙ scalar-number h _ (minus_no_literal h c _ e)

-- A written integer is a value.
pub value-decimal_ℤ :
    (h : Hooks) (f : ℕ) (n : ℤ) (rest : List Char)
    → stops rest ≡ true
    → value h (suc f) (chars (decimal_ℤ n) ++ rest) ≡ some (num n, rest)
value-decimal_ℤ h f (pos n) rest s =
    unfold decimal_ℤ in
    digits-value h f (decimal n) rest (decimal-starts_digit n) ∙ number-decimal_ℤ h (pos n) rest s
value-decimal_ℤ h f (negsuc n) rest s =
    let minus : chars (decimal_ℤ (negsuc n)) ≡ "-" ∷ chars (decimal (suc n)) =
      unfold decimal_ℤ in unfold chars in chars-append "-" (decimal (suc n)) in
    ap (λ cs. value h (suc f) (cs ++ rest)) minus
    ∙ minus-value h f (decimal (suc n)) rest (decimal-starts_digit (suc n))
    ∙ ap (λ cs. number h (cs ++ rest)) (sym minus)
    ∙ number-decimal_ℤ h (negsuc n) rest s

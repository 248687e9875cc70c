-- ===== src/Json/Lines.antt =====
-- What `json.dumps` writes is one line.
use oracle_patching.Prelude.{
  ℕ, zero, suc, ◌+◌, ◌-◌, ◌/◌, ◌%◌, Char, code, String, ◌<>◌, ◌≡◌, refl, inl, inr, Bool, true,
  false, ◌&&◌, List, [], ◌∷◌, map, ltb, leb, ◌==◌, if◌then◌else◌, Bool-cases, All,
}
use text.Mathlib.Text.{is_lt}
use Prim.Native.String
use oracle_patching.Text.{join}
use oracle_patching.Text.Decimal.{nth_char, digit_char, digits_before, decimal, decimal_ℤ}
use oracle_patching.Prelude.Int.{ℤ, pos, negsuc}
use oracle_patching.Json.{
  Json, Items, Fields, null, bool, num, str, arr, obj, nil, cons, end, field, Separators, dumps,
  dump_items, dump_fields, member, insert_key, sort_keys, ordered,
}
use oracle_patching.Json.Quote.{hex4, escape, escapes, quote}
use text.Mathlib.TextLemmas.{nil-append, cons-append}

-- An ASCII character that shows, or a space.
abbrev pub is_visible : Char → Bool
is_visible c = leb 32 (code c) && leb (code c) 126

abbrev pub Visible : String → Type 0
Visible String.[] = Unit
Visible (String.◌∷◌ c s) = (is_visible c ≡ true) × Visible s

pub Visible-append : (s t : String) → Visible s → Visible t → Visible (s <> t)
Visible-append String.[] t p q = rw (nil-append t) q
Visible-append (String.◌∷◌ c s) t (x, p) q = rw (cons-append c s t) (x, Visible-append s t p q)

Visible-join :
    (sep : String) (ws : List String) → Visible sep → All Visible ws → Visible (join sep ws)
unfolding join
Visible-join sep [] p q = tt
Visible-join sep (w ∷ []) p q = q.0
Visible-join sep (w ∷ (v ∷ vs)) p (q, qs) =
    Visible-append w _ q (Visible-append sep _ p (Visible-join sep (v ∷ vs) p qs))

nth_char-is_visible : (n : ℕ) (s : String) → Visible s → is_visible (nth_char n s) ≡ true
nth_char-is_visible n String.[] v = refl
nth_char-is_visible zero (String.◌∷◌ c s) (x, v) = x
nth_char-is_visible (suc n) (String.◌∷◌ c s) (x, v) = nth_char-is_visible n s v

digit_char-is_visible : (n : ℕ) → is_visible (digit_char n) ≡ true
unfolding digit_char
digit_char-is_visible n = nth_char-is_visible n "0123456789abcdef" (
  refl,
  (
    refl,
    (
      refl,
      (
        refl,
        (
          refl,
          (
            refl,
            (refl, (refl, (refl, (refl, (refl, (refl, (refl, (refl, (refl, (refl, tt)))))))))),
          ),
        ),
      ),
    ),
  ),
)

hex4-Visible : (n : ℕ) → Visible (hex4 n)
unfolding hex4
hex4-Visible n = (
  digit_char-is_visible (n / 4096),
  (
    digit_char-is_visible (n / 256 % 16),
    (digit_char-is_visible (n / 16 % 16), (digit_char-is_visible (n % 16), tt)),
  ),
)

unicode-Visible : (n : ℕ) → Visible ("\\u" <> hex4 n)
unicode-Visible n = Visible-append "\\u" (hex4 n) (refl, (refl, tt)) (hex4-Visible n)

if-Visible :
    (b : Bool) (s t : String) → (b ≡ true → Visible s) → Visible t → Visible (if b then s else t)
if-Visible true s t p q = p refl
if-Visible false s t p q = q

escape-Visible : (c : Char) → Visible (escape c)
unfolding escape
escape-Visible c =
    let n = code c in
    if-Visible (n == 34) _ _ (λ h. (refl, (refl, tt)))
      (if-Visible (n == 92) _ _ (λ h. (refl, (refl, tt)))
        (if-Visible (n == 10) _ _ (λ h. (refl, (refl, tt)))
          (if-Visible (n == 13) _ _ (λ h. (refl, (refl, tt)))
            (if-Visible (n == 9) _ _ (λ h. (refl, (refl, tt)))
              (if-Visible (n == 12) _ _ (λ h. (refl, (refl, tt)))
                (if-Visible (n == 8) _ _ (λ h. (refl, (refl, tt)))
                  (if-Visible (is_visible c) _ _ (λ h. (h, tt))
                    (if-Visible (ltb n 65536) _ _ (λ h. unicode-Visible n)
                      (Visible-append "\\u" _ (refl, (refl, tt))
                        (Visible-append (hex4 (55296 + (n - 65536) / 1024)) _
                          (hex4-Visible (55296 + (n - 65536) / 1024))
                          (unicode-Visible (56320 + (n - 65536) % 1024))))))))))))

escapes-Visible : (s : String) → Visible (escapes s)
unfolding escapes
escapes-Visible String.[] = tt
escapes-Visible (String.◌∷◌ c s) =
    Visible-append (escape c) _ (escape-Visible c) (escapes-Visible s)

quote-Visible : (s : String) → Visible (quote s)
unfolding quote
quote-Visible s =
    Visible-append "\"" _ (refl, tt)
      (Visible-append (escapes s) "\"" (escapes-Visible s) (refl, tt))

digits_before-Visible : (f n : ℕ) (rest : String) → Visible rest → Visible (digits_before f n rest)
unfolding digits_before
digits_before-Visible zero n rest v = v
digits_before-Visible (suc f) n rest v = elim (Bool-cases (ltb n 10)) [
  | inl small ↦ rw small (digit_char-is_visible n, v)
  | inr large ↦ rw large (digits_before-Visible f (n / 10) _ (digit_char-is_visible (n % 10), v))
]

decimal_ℤ-Visible : (n : ℤ) → Visible (decimal_ℤ n)
unfolding decimal_ℤ decimal
decimal_ℤ-Visible (pos n) = digits_before-Visible (suc n) n "" tt
decimal_ℤ-Visible (negsuc n) =
    Visible-append "-" _ (refl, tt) (digits_before-Visible (suc (suc n)) (suc n) "" tt)

-- The members whose values are written visibly.
abbrev Shown : List (String × String) → Type 0
Shown m = All (λ e. Visible e.1) m

Shown-insert_key :
    (e : String × String) (m : List (String × String))
    → Visible e.1
    → Shown m
    → Shown (insert_key e m)
unfolding insert_key
Shown-insert_key e [] v s = (v, tt)
Shown-insert_key e (g ∷ m) v (w, s) = elim (Bool-cases (is_lt (String.compare g.0 e.0))) [
  | inl before ↦ rw before (w, Shown-insert_key e m v s)
  | inr after ↦ rw after (v, (w, s))
]

Shown-sort_keys : (m : List (String × String)) → Shown m → Shown (sort_keys m)
unfolding sort_keys
Shown-sort_keys [] s = tt
Shown-sort_keys (e ∷ m) (v, s) = Shown-insert_key e (sort_keys m) v (Shown-sort_keys m s)

module _ (p : Separators) (item : Visible p.item) (key : Visible p.key) where
  Shown-ordered : (m : List (String × String)) → Shown m → Shown (ordered p m)
  unfolding ordered sort_keys
  Shown-ordered m s = elim (Bool-cases p.sorted) [
    | inl sorted ↦ rw sorted (Shown-sort_keys m s)
    | inr unsorted ↦ rw unsorted s
  ]

  members-Visible : (m : List (String × String)) → Shown m → All Visible (map (member p) m)
  unfolding member
  members-Visible [] s = tt
  members-Visible ((k, v) ∷ m) (w, s) = (
    Visible-append (quote k) _ (quote-Visible k) (Visible-append p.key v key w),
    members-Visible m s,
  )

  bracketed-Visible :
      (left right body : String)
      → Visible left
      → Visible right
      → Visible body
      → Visible (left <> body <> right)
  bracketed-Visible left right body l r b = Visible-append left _ l (Visible-append body right b r)

  mutual
    unfolding dumps

    -- With separators that are, what `json.dumps` writes is ASCII that shows, and spaces.
    pub dumps-Visible : (j : Json) → Visible (dumps p j)
    dumps-Visible null = (refl, (refl, (refl, (refl, tt))))
    dumps-Visible (bool true) = (refl, (refl, (refl, (refl, tt))))
    dumps-Visible (bool false) = (refl, (refl, (refl, (refl, (refl, tt)))))
    dumps-Visible (num n) = decimal_ℤ-Visible n
    dumps-Visible (str s) = quote-Visible s
    dumps-Visible (arr xs) =
        bracketed-Visible "[" "]" _ (refl, tt) (refl, tt)
          (Visible-join p.item _ item (dump_items-Visible xs))
    dumps-Visible (obj fs) =
        bracketed-Visible "{" "}" _ (refl, tt) (refl, tt)
          (Visible-join p.item _ item (members-Visible _ (Shown-ordered _ (dump_fields-Shown fs))))

    dump_items-Visible : (xs : Items) → All Visible (dump_items p xs)
    dump_items-Visible nil = tt
    dump_items-Visible (cons x xs) = (dumps-Visible x, dump_items-Visible xs)

    dump_fields-Shown : (fs : Fields) → Shown (dump_fields p fs)
    dump_fields-Shown end = tt
    dump_fields-Shown (field k v fs) = (dumps-Visible v, dump_fields-Shown fs)

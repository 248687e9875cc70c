-- ===== src/Snapshot/Name.antt =====
-- The names of restore points: their length and alphabet, and when two of them are the same.
use oracle_patching.Prelude.{
  ℕ, zero, suc, ◌+◌, ◌≤◌, Char, String, ◌<>◌, ◌≡◌, refl, sym, ap, ◌∙◌, subst, inl, inr, true, arith,
  if◌then◌else◌, Bool-cases,
}
use text.Mathlib.TextLemmas.{nil-append, cons-append}
use oracle_patching.Text.{str_len, str_take}
use oracle_patching.Text.Laws.{Digits}
use oracle_patching.Snapshot.{is_safe, sanitize, name_at}

-- Every character is one of [A-Za-z0-9_].
abbrev pub Safe : String → Type 0
Safe String.[] = Unit
Safe (String.◌∷◌ c s) = (is_safe c ≡ true) × Safe s

sanitize-Safe : (s : String) → Safe (sanitize s)
unfolding sanitize
sanitize-Safe String.[] = tt
sanitize-Safe (String.◌∷◌ c s) = (safe_char c, sanitize-Safe s)
  where
    safe_char : (c : Char) → is_safe (if is_safe c then c else "_") ≡ true
    safe_char c = elim (Bool-cases (is_safe c)) [
      | inl safe ↦ rw safe safe
      | inr other ↦ rw other (unfold is_safe in refl)
    ]

Safe-of_Digits : (s : String) → Digits s → Safe s
unfolding is_safe
Safe-of_Digits String.[] d = tt
Safe-of_Digits (String.◌∷◌ c s) (h, d) = (ground arith, Safe-of_Digits s d)

Safe-append : (s t : String) → Safe s → Safe t → Safe (s <> t)
Safe-append String.[] t p q = subst Safe (sym (nil-append t)) q
Safe-append (String.◌∷◌ c s) t (pc, p) q =
    subst Safe (sym (cons-append c s t)) (pc, Safe-append s t p q)

Safe-take : (n : ℕ) (s : String) → Safe s → Safe (str_take n s)
unfolding str_take
Safe-take zero s p = tt
Safe-take (suc n) String.[] p = tt
Safe-take (suc n) (String.◌∷◌ c s) (pc, p) = (pc, Safe-take n s p)

str_len-take : (n : ℕ) (s : String) → str_len (str_take n s) ≤ n
unfolding str_take
str_len-take zero s = omega arith
str_len-take (suc n) String.[] = omega arith
str_len-take (suc n) (String.◌∷◌ c s) = omega (arith, str_len-take n s)

-- Whatever the patch id is, if the stamp has digits only then the name of the restore point has at
-- most 32 characters, each of them a letter of ASCII, a digit or an underscore.
pub name_at-IsIdentifier :
    (patch_id stamp : String)
    → Digits stamp
    → (str_len (name_at patch_id stamp) ≤ 32) × Safe (name_at patch_id stamp)
unfolding name_at
name_at-IsIdentifier patch_id stamp d = (
  str_len-take 32 _,
  Safe-take 32 _ (
      Safe-append "PREPATCH_" _
        (unfold is_safe in
          (refl, (refl, (refl, (refl, (refl, (refl, (refl, (refl, (refl, tt))))))))))
        (Safe-append (str_take 20 (sanitize patch_id)) _
          (Safe-take 20 (sanitize patch_id) (sanitize-Safe patch_id))
          (Safe-append "_" stamp (unfold is_safe in (refl, tt)) (Safe-of_Digits stamp d)))),
)

str_len-sanitize : (s : String) → str_len (sanitize s) ≡ str_len s
unfolding sanitize
str_len-sanitize String.[] = refl
str_len-sanitize (String.◌∷◌ c s) = ap suc (str_len-sanitize s)

str_len-take_le : (n : ℕ) (s : String) → n ≤ str_len s → str_len (str_take n s) ≡ n
unfolding str_take
str_len-take_le zero s h = refl
str_len-take_le (suc n) String.[] h = omega arith
str_len-take_le (suc n) (String.◌∷◌ c s) h = ap suc (str_len-take_le n s (omega arith))

n_add_zero : (n : ℕ) → n + 0 ≡ n
n_add_zero n = omega arith

n_add_suc : (n m : ℕ) → n + suc m ≡ suc (n + m)
n_add_suc n m = omega arith

str_take-append : (n : ℕ) (s t : String) → str_take (n + str_len s) (s <> t) ≡ s <> str_take n t
unfolding str_take
str_take-append n String.[] t =
    ap (λ k. str_take k ("" <> t)) (n_add_zero n)
    ∙ ap (str_take n) (nil-append t)
    ∙ sym (nil-append _)
str_take-append n (String.◌∷◌ c s) t =
    ap (λ k. str_take k (String.◌∷◌ c s <> t)) (n_add_suc n (str_len s))
    ∙ ap (str_take (suc (n + str_len s))) (cons-append c s t)
    ∙ ap (String.◌∷◌ c) (str_take-append n s t)
    ∙ sym (cons-append c s _)

-- The room that is left for the stamp in a name whose patch id fills its 20 characters.
name_at-of_long :
    (patch_id stamp : String)
    → 20 ≤ str_len patch_id
    → name_at patch_id stamp
      ≡ "PREPATCH_" <> (str_take 20 (sanitize patch_id) <> ("_" <> str_take 2 stamp))
unfolding name_at
name_at-of_long patch_id stamp h =
    let id = str_take 20 (sanitize patch_id) in
    let full : str_len id ≡ 20 =
      str_len-take_le 20 (sanitize patch_id) (rw (str_len-sanitize patch_id) h) in
    str_take-append 23 "PREPATCH_" (id <> ("_" <> stamp))
    ∙ ap (λ s. "PREPATCH_" <> s)
        (ap (λ n. str_take (3 + n) (id <> ("_" <> stamp))) (sym full)
          ∙ str_take-append 3 id ("_" <> stamp)
          ∙ ap (λ s. id <> s) (str_take-append 2 "_" stamp))

-- For a patch id of 20 characters or more, the names taken at two times whose stamps begin with the
-- same two digits, such as any two times of one century, are the same name.
pub name_at-collides :
    (patch_id stamp later : String)
    → 20 ≤ str_len patch_id
    → str_take 2 stamp ≡ str_take 2 later
    → name_at patch_id stamp ≡ name_at patch_id later
name_at-collides patch_id stamp later h same =
    name_at-of_long patch_id stamp h
    ∙ ap (λ s. "PREPATCH_" <> (str_take 20 (sanitize patch_id) <> ("_" <> s))) same
    ∙ sym (name_at-of_long patch_id later h)

-- ===== src/Json/ReadSteps.antt =====
-- One step of `json.loads` at a time: what is read, from what its parts read.
use oracle_patching.Prelude.{ℕ, suc, Char, String, ◌≡◌, refl, ◌∙◌, none, some, List, ◌∷◌}
use oracle_patching.Json.{Json, Items, Fields, str, arr, obj, nil, cons, end, field}
use oracle_patching.Json.Scan.{Hooks, read_then-some, skip, string}
use oracle_patching.Json.Read.{
  value, elements, members, follow, after, dict_from, scalar, start, other, closed,
}

module _ (h : Hooks) where
  pub value-quoted :
      (f : ℕ) (s : String) (cs rest : List Char)
      → string h cs ≡ some (s, rest)
      → value h (suc f) ("\"" ∷ cs) ≡ some (str s, rest)
  unfolding value
  value-quoted f s cs rest e = read_then-some _ _ _ _ e

  pub value-scalar :
      (f : ℕ) (c : Char) (cs : List Char)
      → start c ≡ other
      → value h (suc f) (c ∷ cs) ≡ scalar h (c ∷ cs)
  unfolding value
  value-scalar f c cs e = rw (value, e) refl

  pub value-array :
      (f : ℕ) (cs rest : List Char) (xs : Items)
      → after 93 (skip cs) ≡ none
      → elements h f (skip cs) ≡ some (xs, rest)
      → value h (suc f) ("[" ∷ cs) ≡ some (arr xs, rest)
  unfolding value
  value-array f cs rest xs a e = rw (value, a) (read_then-some _ _ _ _ e)

  pub value-object :
      (f : ℕ) (cs rest : List Char) (fs : Fields)
      → after 125 (skip cs) ≡ none
      → members h f (skip cs) ≡ some (fs, rest)
      → value h (suc f) ("{" ∷ cs) ≡ some (obj (dict_from end fs), rest)
  unfolding value
  value-object f cs rest fs a e = rw (value, a) (read_then-some _ _ _ _ e)

  pub elements-last :
      (f : ℕ) (x : Json) (cs rest : List Char)
      → value h f cs ≡ some (x, "]" ∷ rest)
      → elements h (suc f) cs ≡ some (cons x nil, rest)
  unfolding elements skip follow
  elements-last f x cs rest e = read_then-some _ _ _ _ e

  pub elements-more :
      (f : ℕ) (x : Json) (xs : Items) (cs next rest : List Char)
      → value h f cs ≡ some (x, "," ∷ next)
      → elements h f (skip next) ≡ some (xs, rest)
      → elements h (suc f) cs ≡ some (cons x xs, rest)
  unfolding elements skip follow
  elements-more f x xs cs next rest e g = read_then-some _ _ _ _ e ∙ read_then-some _ _ _ _ g

  pub members-last :
      (f : ℕ) (k : String) (v : Json) (cs next rest : List Char)
      → string h cs ≡ some (k, ":" ∷ next)
      → value h f (skip next) ≡ some (v, "}" ∷ rest)
      → members h (suc f) ("\"" ∷ cs) ≡ some (field k v end, rest)
  unfolding members skip follow after
  members-last f k v cs next rest e g = read_then-some _ _ _ _ e ∙ read_then-some _ _ _ _ g

  pub members-more :
      (f : ℕ) (k : String) (v : Json) (fs : Fields) (cs next further rest : List Char)
      → string h cs ≡ some (k, ":" ∷ next)
      → value h f (skip next) ≡ some (v, "," ∷ further)
      → members h f (skip further) ≡ some (fs, rest)
      → members h (suc f) ("\"" ∷ cs) ≡ some (field k v fs, rest)
  unfolding members skip follow after
  members-more f k v fs cs next further rest e g m =
      read_then-some _ _ _ _ e ∙ read_then-some _ _ _ _ g ∙ read_then-some _ _ _ _ m

  -- The same with blanks in front of the closing brace.
  pub members-closed :
      (f : ℕ) (k : String) (v : Json) (cs next gap rest : List Char)
      → string h cs ≡ some (k, ":" ∷ next)
      → value h f (skip next) ≡ some (v, gap)
      → follow 125 (skip gap) ≡ closed rest
      → members h (suc f) ("\"" ∷ cs) ≡ some (field k v end, rest)
  unfolding members skip after
  members-closed f k v cs next gap rest e g c =
      read_then-some _ _ _ _ e ∙ read_then-some _ _ _ _ g ∙ rw c refl

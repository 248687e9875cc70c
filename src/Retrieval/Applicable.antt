-- ===== src/Retrieval/Applicable.antt =====
-- What `retrieve` returns, told by the bounds of the payloads and the order of versions.
use oracle_patching.Prelude.{
  ℕ, ◌*◌, ◌<◌, String, ◌≡◌, refl, ap, ◌⊎◌, inl, inr, subst, Bool, true, false, not, Option, none,
  some, List, [], ◌∷◌, arith, if◌then◌else◌, take, Bool-cases,
}
use oracle_patching.Prelude.Int.{ℤ, pos, negsuc}
use oracle_patching.Text.{is_empty}
use oracle_patching.Version.{Version, version_tuple, tuple_le}
use oracle_patching.Retrieval.{
  ◌>>=◌, Payload, tuple_lt, violates, applies_to_version, applicable, retrieve,
}

-- The order of the integers.
abbrev pub Less : ℤ → ℤ → Type 0
Less (pos a) (pos b) = a < b
Less (pos a) (negsuc b) = ⊥
Less (negsuc a) (pos b) = Unit
Less (negsuc a) (negsuc b) = b < a

-- `a` comes before `b` in the order of words, or is `b`.
abbrev pub Precedes : Version → Version → Type 0
Precedes [] b = Unit
Precedes (x ∷ a) [] = ⊥
Precedes (x ∷ a) (y ∷ b) = Less x y ⊎ ((x ≡ y) × Precedes a b)

tuple_le-Precedes : (a b : Version) → tuple_le a b ≡ true → Precedes a b
unfolding tuple_le
tuple_le-Precedes [] b h = tt
tuple_le-Precedes (x ∷ a) [] h = cc
tuple_le-Precedes (pos x ∷ a) (pos y ∷ b) h = grind (arith, tuple_le-Precedes a b)
tuple_le-Precedes (pos x ∷ a) (negsuc y ∷ b) h = cc
tuple_le-Precedes (negsuc x ∷ a) (pos y ∷ b) h = inl tt
tuple_le-Precedes (negsuc x ∷ a) (negsuc y ∷ b) h = grind (arith, tuple_le-Precedes a b)

tuple_le-of_Precedes : (a b : Version) → Precedes a b → tuple_le a b ≡ true
unfolding tuple_le
tuple_le-of_Precedes [] b h = refl
tuple_le-of_Precedes (x ∷ a) [] h = absurd h
tuple_le-of_Precedes (pos x ∷ a) (pos y ∷ b) (inl l) = ground arith
tuple_le-of_Precedes (pos x ∷ a) (negsuc y ∷ b) (inl l) = absurd l
tuple_le-of_Precedes (negsuc x ∷ a) (pos y ∷ b) (inl l) = refl
tuple_le-of_Precedes (negsuc x ∷ a) (negsuc y ∷ b) (inl l) = ground arith
tuple_le-of_Precedes (x ∷ a) (y ∷ b) (inr (e, h)) = ground (arith, tuple_le-of_Precedes a b h)

-- A bound that is absent or empty bounds nothing; any other is read, and compared.
abbrev pub Bound : (Version → Type 0) → Option String → Type 0
Bound P none = Unit
Bound P (some text) = (is_empty text ≡ true) ⊎ ((b : Version) × (version_tuple text ≡ some b) × P b)

-- The target version lies between the bounds of the payload, both included; without a target version
-- nothing is asked.
abbrev pub InBounds : Option String → Payload → Type 0
InBounds none p = Unit
InBounds (some target_version) p =
    (v : Version) × (version_tuple target_version ≡ some v)
    × Bound (λ b. Precedes b v) p.applicable_min_version
    × Bound (λ b. Precedes v b) p.applicable_max_version

-- `qs` are the payloads of `ps` that satisfy `P`, in their order.
pub data Filtered (P : Payload → Type 0) : List Payload → List Payload → Type 0 where
  nothing : Filtered P [] []
  keep :
      {ps qs : List Payload} (p : Payload) → P p → Filtered P ps qs → Filtered P (p ∷ ps) (p ∷ qs)
  drop : {ps qs : List Payload} (p : Payload) → ¬ (P p) → Filtered P ps qs → Filtered P (p ∷ ps) qs

some-parts :
    {A B : Type 0} (m : Option A) (k : A → Option B) {b : B}
    → (m >>= k) ≡ some b
    → (a : A) × (m ≡ some a) × (k a ≡ some b)
some-parts none k h = cc
some-parts (some a) k h = (a, refl, h)

module _ (test : Version → Bool) (P : Version → Type 0) where
  violates-Bound :
      (bound : Option String)
      → ((b : Version) → test b ≡ false → P b)
      → violates test bound ≡ some false
      → Bound P bound
  unfolding violates
  violates-Bound none sound h = tt
  violates-Bound (some text) sound h = elim (Bool-cases (is_empty text)) [
    | inl blank ↦ inl blank
    | inr full ↦
        let (b, e, within) = some-parts (version_tuple text) _ (rw full at h) in
        inr (b, e, sound b (cc))
  ]

  violates-of_Bound :
      (bound : Option String)
      → ((b : Version) → P b → test b ≡ false)
      → Bound P bound
      → violates test bound ≡ some false
  unfolding violates
  violates-of_Bound none complete h = refl
  violates-of_Bound (some text) complete (inl blank) = rw blank refl
  violates-of_Bound (some text) complete (inr (b, e, within)) = elim (Bool-cases (is_empty text)) [
    | inl blank ↦ rw blank refl
    | inr full ↦ rw (full, e, complete b within) refl
  ]

true_of_not : (b : Bool) → not b ≡ false → b ≡ true
true_of_not true h = refl
true_of_not false h = cc

false_of_not : (b : Bool) → some (not b) ≡ some true → b ≡ false
false_of_not true h = cc
false_of_not false h = refl

applies-InBounds :
    (target_version : Option String) (p : Payload)
    → applies_to_version p target_version ≡ some true
    → InBounds target_version p
unfolding applies_to_version
applies-InBounds none p h = tt
applies-InBounds (some target_version) p h =
    let (v, e, h1) = some-parts (version_tuple target_version) _ h in
    let (too_old, e1, h2) = some-parts (violates (tuple_lt v) p.applicable_min_version) _ h1 in
    elim (Bool-cases too_old) [
      | inl old ↦ let x = rw old at h2 in cc
      | inr young ↦
          let h3 = rw young at h2 in
          let (too_new, e2, h4) =
            some-parts (violates (λ x. tuple_lt x v) p.applicable_max_version) _ h3 in
          (
            v,
            e,
            violates-Bound (tuple_lt v) (λ b. Precedes b v) p.applicable_min_version
                (λ b t. tuple_le-Precedes b v (true_of_not (tuple_le b v) t)) (rw young at e1),
            violates-Bound (λ x. tuple_lt x v) (λ b. Precedes v b) p.applicable_max_version
                (λ b t. tuple_le-Precedes v b (true_of_not (tuple_le v b) t))
                (rw (false_of_not too_new h4) at e2),
          )
    ]

applies-of_InBounds :
    (target_version : Option String) (p : Payload)
    → InBounds target_version p
    → applies_to_version p target_version ≡ some true
unfolding applies_to_version
applies-of_InBounds none p h = refl
applies-of_InBounds (some target_version) p (v, e, lower, upper) =
    let low =
      violates-of_Bound (tuple_lt v) (λ b. Precedes b v) p.applicable_min_version
        (λ b h. ap not (tuple_le-of_Precedes b v h)) lower in
    let high =
      violates-of_Bound (λ x. tuple_lt x v) (λ b. Precedes v b) p.applicable_max_version
        (λ b h. ap not (tuple_le-of_Precedes v b h)) upper in
    rw (e, low, high) refl

kept :
    (target_version : Option String) (p : Payload) (applies : Bool) (ps rest : List Payload)
    → applies_to_version p target_version ≡ some applies
    → Filtered (InBounds target_version) ps rest
    → Filtered (InBounds target_version) (p ∷ ps) (if applies then p ∷ rest else rest)
kept target_version p true ps rest e f = keep p (applies-InBounds target_version p e) f
kept target_version p false ps rest e f =
    drop p (λ h. let x = applies-of_InBounds target_version p h in cc) f

applicable-Filtered :
    (target_version : Option String) (ps results : List Payload)
    → applicable target_version ps ≡ some results
    → Filtered (InBounds target_version) ps results
unfolding applicable
applicable-Filtered target_version [] results h =
    let e : [] ≡ results = cc in subst (Filtered (InBounds target_version) []) e nothing
applicable-Filtered target_version (p ∷ ps) results h =
    let (applies, e, h') = some-parts (applies_to_version p target_version) _ h in
    let (rest, e', h'') = some-parts (applicable target_version ps) _ h' in
    let same : (if applies then p ∷ rest else rest) ≡ results = cc in
    subst (Filtered (InBounds target_version) (p ∷ ps)) same
      (kept target_version p applies ps rest e (applicable-Filtered target_version ps rest e'))

-- If `retrieve` returns, then it returns the first `top_k` of the payloads that it kept, or all where
-- there are fewer: of the hits that the store answers to a query for `4 * top_k`, in their order,
-- exactly those between whose bounds the target version lies, both bounds included. An absent or
-- empty bound excludes nothing, and without a target version every hit is kept.
pub retrieve-Selects :
    (query : ℕ → List Payload) (target_version : Option String) (top_k : ℕ) (results : List Payload)
    → retrieve query target_version top_k ≡ some results
    → (all : List Payload) × Filtered (InBounds target_version) (query (top_k * 4)) all
      × (results ≡ take top_k all)
unfolding retrieve
retrieve-Selects query target_version top_k results h =
    let (all, e, h') = some-parts (applicable target_version (query (top_k * 4))) _ h in
    (all, applicable-Filtered target_version _ all e, cc)

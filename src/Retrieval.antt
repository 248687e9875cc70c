-- ===== src/Retrieval.antt =====
-- Patching_Agentic/rag/retrieval/retrieve.py: the hits of the vector store that apply to a version.
pub mod Applicable
mod Tests
use oracle_patching.Prelude.{
  ℕ, ◌-◌, ◌*◌, ◌/◌, ◌<◌, String, ap, Bool, true, false, not, Option, none, some, List, [], ◌∷◌,
  if◌then◌else◌, take,
}
use oracle_patching.Text.{is_empty}
use oracle_patching.Json.{Json}
use oracle_patching.Version.{Version, version_tuple, tuple_le}

-- What a payload says of the versions it applies to; the rest of it is not looked at.
pub record Payload : Type 0 where
  pub body : List (String × Json)
  pub applicable_min_version : Option String
  pub applicable_max_version : Option String

infixl 5 ◌>>=◌
abbrev ◌>>=◌ : {A B : Type 0} → Option A → (A → Option B) → Option B
m >>= k = elim m [ none ↦ none | some a ↦ k a ]

-- The `<` of tuples.
abbrev pub tuple_lt : Version → Version → Bool
tuple_lt a b = not (tuple_le b a)

-- `bound and test(_version_tuple(bound))`; the ValueError of a bound that is no version is `none`.
unfoldable pub violates : (Version → Bool) → Option String → Option Bool
violates test none = some false
violates test (some bound) =
    if is_empty bound then some false else version_tuple bound >>= λ v. some (test v)

-- `_applies_to_version`; `none` is a ValueError.
unfoldable pub applies_to_version : Payload → Option String → Option Bool
unfolding violates
applies_to_version payload none = some true
applies_to_version payload (some target_version) = do
  target ← version_tuple target_version
  too_old ← violates (tuple_lt target) payload.applicable_min_version
  if too_old
      then some false
      else (violates (λ v. tuple_lt v target) payload.applicable_max_version >>= λ too_new.
          some (not too_new))

-- The comprehension over the hits.
unfoldable pub applicable : Option String → List Payload → Option (List Payload)
applicable target_version [] = some []
applicable target_version (p ∷ ps) = do
  applies ← applies_to_version p target_version
  rest ← applicable target_version ps
  some (if applies then p ∷ rest else rest)

-- `query n` is what the store answers to the query, limited to `n` hits.
unfoldable pub retrieve : (ℕ → List Payload) → Option String → ℕ → Option (List Payload)
unfolding applicable
retrieve query target_version top_k =
    applicable target_version (query (top_k * 4)) >>= λ results. some (take top_k results)

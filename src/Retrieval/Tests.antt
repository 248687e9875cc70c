-- ===== src/Retrieval/Tests.antt =====
-- A store with one payload for each of two major versions.
use oracle_patching.Prelude.{◌≡◌, refl, none, some, List, [], ◌∷◌, take}
use oracle_patching.Json.{str}
use oracle_patching.Version.{version_tuple, tuple_le}
use oracle_patching.Retrieval.{Payload, retrieve, applies_to_version}
use oracle_patching.Retrieval.Applicable.{InBounds, Filtered, retrieve-Selects}

abbrev for_19c : Payload
for_19c = record {
  body = ("id", str "19c") ∷ [];
  applicable_min_version = some "19.0.0.0.0";
  applicable_max_version = some "19.99.99.99.99";
}

abbrev for_21c : Payload
for_21c = record {
  body = ("id", str "21c") ∷ [];
  applicable_min_version = some "21.0.0.0.0";
  applicable_max_version = none;
}

hits_of_19c : retrieve (λ n. for_21c ∷ for_19c ∷ []) (some "19.24.0.0.0") 5 ≡ some (for_19c ∷ [])
unfolding retrieve version_tuple applies_to_version tuple_le
hits_of_19c = refl

-- Both bounds of a payload are versions that it applies to.
at_the_bounds :
    retrieve (λ n. for_19c ∷ for_21c ∷ []) (some "19.99.99.99.99") 5 ≡ some (for_19c ∷ [])
unfolding retrieve version_tuple applies_to_version tuple_le
at_the_bounds = refl

retrieve-Selects_example :
    (all : List Payload) × Filtered (InBounds (some "19.24.0.0.0")) (for_21c ∷ for_19c ∷ []) all
    × (for_19c ∷ [] ≡ take 5 all)
retrieve-Selects_example =
    retrieve-Selects (λ n. for_21c ∷ for_19c ∷ []) (some "19.24.0.0.0") 5 (for_19c ∷ []) hits_of_19c

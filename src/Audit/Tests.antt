-- ===== src/Audit/Tests.antt =====
-- Concrete logs, with the identity in place of the digest.
use oracle_patching.Prelude.{
  ℕ, ◌+◌, String, ◌≡◌, refl, ◌↔◌, ◌⊎◌, false, some, [], ◌∷◌, ◌++◌, length,
}
use oracle_patching.Json.{str}
use oracle_patching.Audit.{AuditEntry, Log, canonical, genesis_hash, gap_reason, seal, verify_chain}
use oracle_patching.Audit.Append.{Links, passed}
use oracle_patching.Audit.Position.{
  last_hash, verify_chain_iff, verify_chain-prefix, deletion_detected,
}
use oracle_patching.Audit.Content.{SameFields, replacement-SameFields}
use oracle_patching.Audit.Binding.{Collision}

abbrev plain : String → String
plain s = s

abbrev first : AuditEntry
first = seal plain "t1" "scan" (str "a") (1, genesis_hash)

abbrev second : AuditEntry
second = seal plain "t2" "scan" (str "b") (2, first.entry_hash)

abbrev third : AuditEntry
third = seal plain "t3" "scan" (str "c") (3, second.entry_hash)

chain-accepted : verify_chain plain (first ∷ second ∷ third ∷ []) ≡ passed
unfolding verify_chain canonical
chain-accepted = refl

verify_chain_iff_example : (verify_chain plain (first ∷ third ∷ []) ≡ passed) ↔ (
    (xs : Log) (e : AuditEntry) (ys : Log)
    → (first ∷ third ∷ []) ≡ xs ++ e ∷ ys
    → Links plain (last_hash genesis_hash xs) (1 + length xs) e)
verify_chain_iff_example = verify_chain_iff plain (first ∷ third ∷ [])

verify_chain-prefix_example : verify_chain plain (first ∷ second ∷ []) ≡ passed
verify_chain-prefix_example =
    verify_chain-prefix plain (first ∷ second ∷ []) (third ∷ []) chain-accepted

deletion_detected_example : verify_chain plain (first ∷ third ∷ []) ≡ (false, some (gap_reason 2 3))
deletion_detected_example = deletion_detected plain (first ∷ []) second [] third [] chain-accepted

-- A digest that tells nothing apart.
abbrev constant : String → String
constant s = "d"

abbrev sealed : ℕ → String → String → AuditEntry
sealed seq text prev_hash = seal constant "t" "scan" (str text) (seq, prev_hash)

original-accepted :
    verify_chain constant (sealed 1 "a" genesis_hash ∷ sealed 2 "c" "d" ∷ []) ≡ passed
unfolding verify_chain
original-accepted = refl

replaced-accepted :
    verify_chain constant (sealed 1 "b" genesis_hash ∷ sealed 2 "c" "d" ∷ []) ≡ passed
unfolding verify_chain
replaced-accepted = refl

replacement-SameFields_example :
    SameFields (sealed 1 "a" genesis_hash) (sealed 1 "b" genesis_hash) ⊎ Collision constant
replacement-SameFields_example =
    replacement-SameFields constant [] (sealed 1 "a" genesis_hash) (sealed 1 "b" genesis_hash)
      (sealed 2 "c" "d") [] tt tt original-accepted replaced-accepted

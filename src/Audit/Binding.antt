-- ===== src/Audit/Binding.antt =====
-- Replacing an entry of an accepted log.
use oracle_patching.Prelude.{
  String, ◌≢◌, ◌≡◌, ◌⊎◌, Bool-cases, str_eq, inl, eq_iff, length, inr, arith, ◌∙◌, sym, ◌++◌, ◌∷◌,
  [], ◌+◌, append_assoc, refl,
}
use oracle_patching.Audit.{AuditEntry, Log, genesis_hash, canonical, verify_chain}
use oracle_patching.Audit.Append.{Links, passed}
use oracle_patching.Audit.Position.{last_hash, verify_chain_iff}

-- What `entry_hash` is computed from.
abbrev pub content : AuditEntry → String
content e = canonical e.seq e.timestamp e.event_type e.payload e.prev_hash

-- Two different texts with one digest.
pub record Collision (sha256_hex : String → String) : Type 0 where
  pub left : String
  pub right : String
  pub differ : left ≢ right
  pub meet : sha256_hex left ≡ sha256_hex right

last_hash-append :
    (prev : String) (xs : Log) (e : AuditEntry) → last_hash prev (xs ++ e ∷ []) ≡ e.entry_hash
last_hash-append prev [] e = refl
last_hash-append prev (x ∷ xs) e = last_hash-append x.entry_hash xs e

module _ (sha256_hex : String → String) where
  pub same_or_Collision :
      (s t : String) → sha256_hex s ≡ sha256_hex t → (s ≡ t) ⊎ Collision sha256_hex
  same_or_Collision s t h = elim (Bool-cases (str_eq s t)) [
    | inl same ↦ inl ((eq_iff s t).0 same)
    | inr differ ↦
        inr (record { left = s; right = t; differ = λ p. ground (arith, eq_iff s t); meet = h })
  ]

  Links-at :
      (xs : Log) (e : AuditEntry) (ys : Log)
      → verify_chain sha256_hex (xs ++ e ∷ ys) ≡ passed
      → Links sha256_hex (last_hash genesis_hash xs) (1 + length xs) e
  Links-at xs e ys h = (verify_chain_iff sha256_hex (xs ++ e ∷ ys)).0 h xs e ys refl

  next_prev_hash :
      (xs : Log) (e z : AuditEntry) (zs : Log)
      → verify_chain sha256_hex (xs ++ e ∷ z ∷ zs) ≡ passed
      → z.prev_hash ≡ e.entry_hash
  next_prev_hash xs e z zs h =
      (Links-at (xs ++ e ∷ []) z zs (rw append_assoc h)).linked ∙ last_hash-append genesis_hash xs e

  -- If `verify_chain` accepts a log, and accepts it again with one entry replaced that is not the
  -- last, then the two entries have the same hashed text, or two different texts with one digest
  -- are at hand.
  pub replacement_detected :
      (xs : Log) (e e' z : AuditEntry) (zs : Log)
      → verify_chain sha256_hex (xs ++ e ∷ z ∷ zs) ≡ passed
      → verify_chain sha256_hex (xs ++ e' ∷ z ∷ zs) ≡ passed
      → (content e ≡ content e') ⊎ Collision sha256_hex
  replacement_detected xs e e' z zs h h' = same_or_Collision (content e) (content e') (
      (Links-at xs e (z ∷ zs) h).hashed
      ∙ sym (next_prev_hash xs e z zs h)
      ∙ next_prev_hash xs e' z zs h'
      ∙ sym (Links-at xs e' (z ∷ zs) h').hashed)

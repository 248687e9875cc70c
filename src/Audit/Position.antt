-- ===== src/Audit/Position.antt =====
-- What an accepted log says of each position, what a deletion or a reordering does to it, and what
-- a truncation does not.
use oracle_patching.Prelude.{
  ℕ, suc, ◌+◌, String, ◌≡◌, ◌≢◌, ◌↔◌, refl, ◌∙◌, ap, false, some, [], ◌∷◌, ◌++◌, length, arith,
  length-append,
}
use oracle_patching.Audit.{AuditEntry, Log, genesis_hash, gap_reason, verify_from, verify_chain}
use oracle_patching.Audit.Append.{Links, passed, verify_from-cons, cons-verify_from}

-- The hash that the entry after these must carry as `prev_hash`.
abbrev pub last_hash : String → Log → String
last_hash prev [] = prev
last_hash prev (e ∷ es) = last_hash e.entry_hash es

add_zero : (n : ℕ) → n + 0 ≡ n
add_zero n = omega arith

shift : (n k : ℕ) → n + suc k ≡ n + 1 + k
shift n k = omega arith

module _ (sha256_hex : String → String) where
  verify_from-append :
      (prev : String) (n : ℕ) (xs ys : Log)
      → verify_from sha256_hex prev n (xs ++ ys) ≡ passed
      → (verify_from sha256_hex prev n xs ≡ passed)
        × (verify_from sha256_hex (last_hash prev xs) (n + length xs) ys ≡ passed)
  unfolding verify_from
  verify_from-append prev n [] ys h = (refl, rw (add_zero n) h)
  verify_from-append prev n (x ∷ xs) ys h =
      let (l, h') = verify_from-cons sha256_hex prev n x (xs ++ ys) h in
      let (p, q) = verify_from-append x.entry_hash (n + 1) xs ys h' in
      (cons-verify_from sha256_hex prev n x xs l ∙ p, rw (shift n (length xs)) q)

  append-verify_from :
      (prev : String) (n : ℕ) (xs ys : Log)
      → verify_from sha256_hex prev n xs ≡ passed
      → verify_from sha256_hex prev n (xs ++ ys)
        ≡ verify_from sha256_hex (last_hash prev xs) (n + length xs) ys
  append-verify_from prev n [] ys h = rw (add_zero n)
  append-verify_from prev n (x ∷ xs) ys h =
      let (l, h') = verify_from-cons sha256_hex prev n x xs h in
      cons-verify_from sha256_hex prev n x _ l
      ∙ append-verify_from x.entry_hash (n + 1) xs ys h'
      ∙ rw (shift n (length xs))

  verify_from-of-Links :
      (prev : String) (n : ℕ) (es : Log)
      → ((xs : Log) (e : AuditEntry) (ys : Log)
          → es ≡ xs ++ e ∷ ys
          → Links sha256_hex (last_hash prev xs) (n + length xs) e)
      → verify_from sha256_hex prev n es ≡ passed
  unfolding verify_from
  verify_from-of-Links prev n [] all = refl
  verify_from-of-Links prev n (x ∷ es) all =
      cons-verify_from sha256_hex prev n x es (rw (add_zero n) at (all [] x es refl))
      ∙ verify_from-of-Links x.entry_hash (n + 1) es
          (λ xs e ys p. rw (shift n (length xs)) at (all (x ∷ xs) e ys (ap (λ l. x ∷ l) p)))

  -- `verify_chain` accepts exactly the logs in which every entry has its position for its `seq`
  -- (from 1), the hash of the entry before it, or the genesis hash, for its `prev_hash`, and the
  -- hash of its own content for its `entry_hash`.
  pub verify_chain_iff :
      (log : Log)
      → (verify_chain sha256_hex log ≡ passed) ↔ (
          (xs : Log) (e : AuditEntry) (ys : Log)
          → log ≡ xs ++ e ∷ ys
          → Links sha256_hex (last_hash genesis_hash xs) (1 + length xs) e)
  unfolding verify_chain
  verify_chain_iff log =
      (λ h xs e ys split. at xs e ys (rw split at h), verify_from-of-Links genesis_hash 1 log)
    where
      at :
          (xs : Log) (e : AuditEntry) (ys : Log)
          → verify_from sha256_hex genesis_hash 1 (xs ++ e ∷ ys) ≡ passed
          → Links sha256_hex (last_hash genesis_hash xs) (1 + length xs) e
      at xs e ys h =
          (verify_from-cons sha256_hex _ _ e ys
            (verify_from-append genesis_hash 1 xs (e ∷ ys) h).1).0

  -- Entries cut off the end leave no trace: if `verify_chain` accepts a log, it accepts each of
  -- its prefixes.
  pub verify_chain-prefix :
      (xs ys : Log)
      → verify_chain sha256_hex (xs ++ ys) ≡ passed
      → verify_chain sha256_hex xs ≡ passed
  unfolding verify_chain
  verify_chain-prefix xs ys h = (verify_from-append genesis_hash 1 xs ys h).0

  gap_found :
      (prev : String) (n : ℕ) (e : AuditEntry) (es : Log)
      → e.seq ≢ n
      → verify_from sha256_hex prev n (e ∷ es) ≡ (false, some (gap_reason n e.seq))
  unfolding verify_from
  gap_found prev n e es h = ground arith

  seq_of_entry :
      (xs : Log) (e : AuditEntry) (ys : Log)
      → verify_chain sha256_hex (xs ++ e ∷ ys) ≡ passed
      → e.seq ≡ 1 + length xs
  unfolding verify_chain
  seq_of_entry xs e ys h =
      (verify_from-cons sha256_hex _ _ e ys
        (verify_from-append genesis_hash 1 xs (e ∷ ys) h).1).0.numbered

  -- If entries are removed from an accepted log, and an entry stands behind them, `verify_chain`
  -- refuses the rest, with the position of the gap as its reason.
  pub deletion_detected :
      (xs : Log) (y : AuditEntry) (ys : Log) (z : AuditEntry) (zs : Log)
      → verify_chain sha256_hex (xs ++ (y ∷ ys) ++ z ∷ zs) ≡ passed
      → verify_chain sha256_hex (xs ++ z ∷ zs)
        ≡ (false, some (gap_reason (1 + length xs) (1 + length xs + length (y ∷ ys))))
  unfolding verify_chain
  deletion_detected xs y ys z zs h =
      let seq : z.seq ≡ 1 + length xs + length (y ∷ ys) =
        seq_of_entry (xs ++ y ∷ ys) z zs h ∙ rw length-append (omega arith) in
      append-verify_from genesis_hash 1 xs (z ∷ zs)
        (verify_chain-prefix xs (y ∷ ys) (verify_chain-prefix (xs ++ y ∷ ys) (z ∷ zs) h))
      ∙ gap_found _ _ z zs (omega (arith, seq))
      ∙ rw seq

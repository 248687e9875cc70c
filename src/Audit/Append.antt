-- ===== src/Audit/Append.antt =====
-- Appending keeps the chain.
use oracle_patching.Prelude.{
  refl, ℕ, ◌+◌, String, ◌≡◌, true, none, ◌∷◌, arith, eq_iff, ◌++◌, [], ◌∙◌, List, length,
  length-append, ap,
}
use oracle_patching.Audit.{
  AuditEntry, Log, compute_hash, Verdict, verify_from, Json, verify_chain, append, seal,
  genesis_hash, next_link,
}

-- One entry of a verified chain, and the rest.
pub record Links (sha256_hex : String → String) (prev : String) (n : ℕ) (e : AuditEntry)
    : Type 0 where
  pub numbered : e.seq ≡ n
  pub linked : e.prev_hash ≡ prev
  pub hashed :
      compute_hash sha256_hex e.seq e.timestamp e.event_type e.payload e.prev_hash ≡ e.entry_hash

abbrev pub passed : Verdict
passed = (true, none)

-- The link to follow a log that is not empty does not depend on the start.
next_link-cons :
    (start start' : ℕ × String) (e : AuditEntry) (es : Log)
    → next_link start (e ∷ es) ≡ next_link start' (e ∷ es)
next_link-cons start start' e [] = refl
next_link-cons start start' e (f ∷ es) = next_link-cons start start' f es

module _ (sha256_hex : String → String) where
  pub verify_from-cons :
      (prev : String) (n : ℕ) (e : AuditEntry) (es : Log)
      → verify_from sha256_hex prev n (e ∷ es) ≡ passed
      → Links sha256_hex prev n e × (verify_from sha256_hex e.entry_hash (n + 1) es ≡ passed)
  unfolding verify_from
  verify_from-cons prev n e es h = ground (
    arith,
    eq_iff e.prev_hash prev,
    eq_iff (compute_hash sha256_hex e.seq e.timestamp e.event_type e.payload e.prev_hash)
        e.entry_hash,
  )

  pub cons-verify_from :
      (prev : String) (n : ℕ) (e : AuditEntry) (es : Log)
      → Links sha256_hex prev n e
      → verify_from sha256_hex prev n (e ∷ es) ≡ verify_from sha256_hex e.entry_hash (n + 1) es
  unfolding verify_from
  cons-verify_from prev n e es l = ground (
    arith,
    eq_iff e.prev_hash prev,
    eq_iff (compute_hash sha256_hex e.seq e.timestamp e.event_type e.payload e.prev_hash)
        e.entry_hash,
  )

  verify_from-nil : (prev : String) (n : ℕ) → verify_from sha256_hex prev n [] ≡ passed
  unfolding verify_from
  verify_from-nil prev n = refl

  verify_from-seal :
      (prev : String) (n : ℕ) (es : Log) (timestamp event_type : String) (payload : Json)
      → verify_from sha256_hex prev n es ≡ passed
      → verify_from sha256_hex prev n
          (es ++ seal sha256_hex timestamp event_type payload (next_link (n, prev) es) ∷ [])
        ≡ passed
  verify_from-seal prev n [] timestamp event_type payload h =
      cons-verify_from prev n _ [] (record { numbered = refl; linked = refl; hashed = refl })
      ∙ verify_from-nil _ _
  verify_from-seal prev n (e ∷ []) timestamp event_type payload h =
      let (l, h') = verify_from-cons prev n e [] h in
      cons-verify_from prev n e _ l
      ∙ cons-verify_from e.entry_hash (n + 1) _ []
          (record { numbered = ap (λ k. k + 1) l.numbered; linked = refl; hashed = refl })
      ∙ verify_from-nil _ _
  verify_from-seal prev n (e ∷ (f ∷ es)) timestamp event_type payload h =
      let (l, h') = verify_from-cons prev n e (f ∷ es) h in
      cons-verify_from prev n e _ l
      ∙ ap
          (λ link.
            verify_from sha256_hex e.entry_hash (n + 1)
              ((f ∷ es) ++ seal sha256_hex timestamp event_type payload link ∷ []))
          (next_link-cons (n, prev) (n + 1, e.entry_hash) f es)
      ∙ verify_from-seal e.entry_hash (n + 1) (f ∷ es) timestamp event_type payload h'

  -- If `verify_chain` accepts the log, it accepts the log after any `append`, whatever the event
  -- and its payload.
  pub append-verify_chain :
      (timestamp event_type : String) (payload : Json) (log : Log)
      → verify_chain sha256_hex log ≡ passed
      → verify_chain sha256_hex (append sha256_hex timestamp event_type payload log).1 ≡ passed
  unfolding verify_chain append
  append-verify_chain timestamp event_type payload log h =
      verify_from-seal genesis_hash 1 log timestamp event_type payload h

-- The calls of `append` in the life of a log, oldest first, with the times of the calls.
abbrev pub Appends : Type 0
Appends = List (String × String × Json)

unfoldable pub append_all : (String → String) → Appends → Log → Log
append_all sha256_hex [] log = log
append_all sha256_hex ((timestamp, event_type, payload) ∷ calls) log =
    append_all sha256_hex calls (append sha256_hex timestamp event_type payload log).1

module _ (sha256_hex : String → String) where
  append_all-verify_chain :
      (calls : Appends) (log : Log)
      → verify_chain sha256_hex log ≡ passed
      → verify_chain sha256_hex (append_all sha256_hex calls log) ≡ passed
  unfolding append_all
  append_all-verify_chain [] log h = h
  append_all-verify_chain ((timestamp, event_type, payload) ∷ calls) log h =
      append_all-verify_chain calls _
        (append-verify_chain sha256_hex timestamp event_type payload log h)

  length-append_all :
      (calls : Appends) (log : Log)
      → length (append_all sha256_hex calls log) ≡ length log + length calls
  unfolding append_all append
  length-append_all [] log = omega arith
  length-append_all ((timestamp, event_type, payload) ∷ calls) log =
      length-append_all calls _ ∙ rw length-append (omega arith)

  -- A log that was only ever written by `append`, from the empty file on, is accepted by
  -- `verify_chain` and holds one entry for each call.
  pub append_all-from_empty :
      (calls : Appends)
      → (verify_chain sha256_hex (append_all sha256_hex calls []) ≡ passed)
        × (length (append_all sha256_hex calls []) ≡ length calls)
  unfolding verify_chain verify_from
  append_all-from_empty calls =
      (append_all-verify_chain calls [] refl, length-append_all calls [] ∙ omega arith)

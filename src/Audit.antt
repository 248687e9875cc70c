-- ===== src/Audit.antt =====
-- Patching_Agentic/audit/logger.py: the hash-chained log. The file is the list of the entries of its
-- non-blank lines, each line holding one entry; `sha256_hex` is `hashlib.sha256(…).hexdigest()`.
pub mod Append
pub mod Position
pub mod Binding
pub mod File
pub mod Read
pub mod ReadBack
pub mod Refines
pub mod Content
pub mod Tamper
pub mod Tampered
mod Tests
mod FileTests
use oracle_patching.Prelude.{
  ℕ, ◌+◌, ◌-◌, ◌/◌, ◌<◌, String, ◌<>◌, ap, Bool, true, false, not, Option, none, some, List, [],
  ◌∷◌, ◌++◌, str_eq, ◌==◌, if◌then◌else◌, get_last?,
}
use oracle_patching.Prelude.Int.{pos}
use oracle_patching.Text.Decimal.{decimal}
use oracle_patching.Json.{Json, num, str, object, dumps, compact, spaced}

pub record AuditEntry : Type 0 where
  pub seq : ℕ
  pub timestamp : String
  pub event_type : String
  pub payload : Json
  pub prev_hash : String
  pub entry_hash : String

abbrev pub Log : Type 0
Log = List AuditEntry

abbrev pub genesis_hash : String
genesis_hash = "0000000000000000000000000000000000000000000000000000000000000000"

-- EVENT_TYPES, the strings that callers pass.
pub data EventType : Type 0 where
  scan_event rag_retrieval recommendation approval_decision dry_run_result : EventType
  snapshot_event execution_output validation_result : EventType

abbrev pub event_name : EventType → String
event_name scan_event = "scan"
event_name rag_retrieval = "rag_retrieval"
event_name recommendation = "recommendation"
event_name approval_decision = "approval_decision"
event_name dry_run_result = "dry_run_result"
event_name snapshot_event = "snapshot"
event_name execution_output = "execution_output"
event_name validation_result = "validation_result"

-- The text that is hashed.
unfoldable pub canonical : ℕ → String → String → Json → String → String
unfolding dumps
canonical seq timestamp event_type payload prev_hash = dumps compact (
    object (
      ("seq", num (pos seq))
      ∷ ("timestamp", str timestamp)
      ∷ ("event_type", str event_type)
      ∷ ("payload", payload)
      ∷ ("prev_hash", str prev_hash)
      ∷ []))

abbrev pub entry_members : AuditEntry → List (String × Json)
entry_members e =
    ("seq", num (pos e.seq))
    ∷ ("timestamp", str e.timestamp)
    ∷ ("event_type", str e.event_type)
    ∷ ("payload", e.payload)
    ∷ ("prev_hash", str e.prev_hash)
    ∷ ("entry_hash", str e.entry_hash)
    ∷ []

unfoldable pub to_json_line : AuditEntry → String
unfolding dumps
to_json_line e = dumps spaced (object (entry_members e))

module _ (sha256_hex : String → String) where
  abbrev pub compute_hash : ℕ → String → String → Json → String → String
  compute_hash seq timestamp event_type payload prev_hash =
      sha256_hex (canonical seq timestamp event_type payload prev_hash)

  -- The entry that follows `seq - 1` entries with the last hash `prev_hash`.
  abbrev pub seal : String → String → Json → ℕ × String → AuditEntry
  seal timestamp event_type payload (seq, prev_hash) = record {
    seq = seq;
    timestamp = timestamp;
    event_type = event_type;
    payload = payload;
    prev_hash = prev_hash;
    entry_hash = compute_hash seq timestamp event_type payload prev_hash;
  }

-- `seq` and `prev_hash` of the next entry, from the last line of the file.
abbrev pub next_link : ℕ × String → Log → ℕ × String
next_link start log = elim (get_last? log) [
  | none ↦ start
  | some prev ↦ (prev.seq + 1, prev.entry_hash)
]

-- What `verify_chain` returns: the flag, and the reason if it is false.
abbrev pub Verdict : Type 0
Verdict = Bool × Option String

abbrev pub gap_reason : ℕ → ℕ → String
gap_reason expected seq =
    "entry at position " <> decimal expected <> " has seq=" <> decimal seq <> " (gap or reorder)"

abbrev pub link_reason : ℕ → String
link_reason seq = "entry seq=" <> decimal seq <> " prev_hash mismatch (chain broken or tampered)"

abbrev pub hash_reason : ℕ → String
hash_reason seq =
    "entry seq=" <> decimal seq <> " entry_hash does not match its own content (tampered)"

module _ (sha256_hex : String → String) where
  -- AuditLogger.append: the new entry and the file after it. The file is locked, so that no other
  -- process writes between the read and the write.
  unfoldable pub append : String → String → Json → Log → AuditEntry × Log
  append timestamp event_type payload log =
      let entry = seal sha256_hex timestamp event_type payload (next_link (1, genesis_hash) log) in
      (entry, log ++ entry ∷ [])

  -- The loop of `verify_chain`.
  unfoldable pub verify_from : String → ℕ → Log → Verdict
  verify_from prev_hash expected_seq [] = (true, none)
  verify_from prev_hash expected_seq (entry ∷ entries) =
      let rest = verify_from entry.entry_hash (expected_seq + 1) entries in
      if entry.seq == expected_seq
      then (if str_eq entry.prev_hash prev_hash
          then (if str_eq
                (compute_hash sha256_hex entry.seq entry.timestamp entry.event_type entry.payload
                  entry.prev_hash)
                entry.entry_hash
              then rest
              else (false, some (hash_reason entry.seq)))
          else (false, some (link_reason entry.seq)))
      else (false, some (gap_reason expected_seq entry.seq))

  unfoldable pub verify_chain : Log → Verdict
  unfolding verify_from
  verify_chain log = verify_from genesis_hash 1 log

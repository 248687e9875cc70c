-- ===== src/Audit/Read.antt =====
-- Patching_Agentic/audit/logger.py on the text of the file: the entries are read back with `json.loads`.
use oracle_patching.Prelude.{
  ℕ, zero, suc, ◌+◌, code, String, ◌<>◌, Bool, true, false, Option, none, some, List, [], ◌∷◌,
  str_eq, ◌==◌, if◌then◌else◌, get_last?,
}
use oracle_patching.Prelude.Int.{pos, negsuc}
use oracle_patching.Errors.{Result, ok, raise, ◌>>=◌, value_error, type_error}
use oracle_patching.Text.{push_char, is_empty, strip}
use oracle_patching.Text.Decimal.{decimal}
use oracle_patching.Json.{Json, bool, num, str, object, dumps, compact, spaced}
use oracle_patching.Json.Show.{show}
use oracle_patching.Json.Scan.{Hooks}
use oracle_patching.Json.Read.{loads}
use oracle_patching.Item.{item}
use oracle_patching.Scanner.{crlf}
use oracle_patching.Audit.{genesis_hash, Verdict}
use oracle_patching.Audit.Append.{Appends}
use oracle_patching.Audit.File.{written_lines}

-- An entry as it is read: the fields have no fixed types.
pub record Loaded : Type 0 where
  pub seq : Json
  pub timestamp : Json
  pub event_type : Json
  pub payload : Json
  pub prev_hash : Json
  pub entry_hash : Json

-- The fields of the object that `json.loads` gives.
unfoldable pub entry_of : Hooks → String → Option Json → Result Loaded
unfolding item
entry_of h line none = raise (value_error (h.message line))
entry_of h line (some raw) = item "seq" raw >>= λ seq. item "timestamp" raw >>= λ timestamp.
    item "event_type" raw >>= λ event_type. item "payload" raw >>= λ payload.
    item "prev_hash" raw >>= λ prev_hash. item "entry_hash" raw >>= λ entry_hash. ok record {
      seq = seq;
      timestamp = timestamp;
      event_type = event_type;
      payload = payload;
      prev_hash = prev_hash;
      entry_hash = entry_hash;
    }

-- AuditEntry.from_json_line
unfoldable pub from_json_line : Hooks → String → Result Loaded
unfolding loads entry_of
from_json_line h line = entry_of h line (loads h line)

-- A carriage return is a newline, for a file that is read as text.
unfoldable pub line_feeds : String → String
line_feeds String.[] = ""
line_feeds (String.◌∷◌ c s) =
    if code c == 13 then String.◌∷◌ "\n" (line_feeds s) else String.◌∷◌ c (line_feeds s)

-- The lines of text up to a newline, which they keep.
unfoldable pub newline_lines : String → List String
newline_lines String.[] = []
newline_lines (String.◌∷◌ c s) =
    let rest = newline_lines s in if code c == 10 then "\n" ∷ rest else push_char c rest

-- for line in fh
unfoldable pub file_lines : String → List String
unfolding crlf line_feeds newline_lines
file_lines text = newline_lines (line_feeds (crlf text))

unfoldable pub read_entries : Hooks → List String → Result (List Loaded)
unfolding from_json_line strip
read_entries h [] = ok []
read_entries h (line ∷ lines) = elim (is_empty (strip line)) [
  | true ↦ read_entries h lines
  | false ↦
      from_json_line h line >>= λ entry. read_entries h lines >>= λ entries. ok (entry ∷ entries)
]

-- AuditLogger.read_all
unfoldable pub read_all : Hooks → String → Result (List Loaded)
unfolding read_entries file_lines
read_all h text = read_entries h (file_lines text)

-- The comparisons `value == n` and `value == s`; a bool is the number 0 or 1.
abbrev pub is_int : Json → ℕ → Bool
is_int (num (pos m)) n = m == n
is_int (bool true) n = 1 == n
is_int (bool false) n = 0 == n
is_int j n = false

abbrev pub is_str : Json → String → Bool
is_str (str t) s = str_eq t s
is_str j s = false

-- `value + 1`
abbrev pub plus_one : Json → Result Json
plus_one (num (pos n)) = ok (num (pos (suc n)))
plus_one (num (negsuc zero)) = ok (num (pos 0))
plus_one (num (negsuc (suc n))) = ok (num (negsuc n))
plus_one (bool true) = ok (num (pos 2))
plus_one (bool false) = ok (num (pos 1))
plus_one j = raise (type_error "+")

-- The text that is hashed, of the fields of an entry.
unfoldable pub loaded_canonical : Json → Json → Json → Json → Json → String
unfolding dumps
loaded_canonical seq timestamp event_type payload prev_hash = dumps compact (
    object (
      ("seq", seq)
      ∷ ("timestamp", timestamp)
      ∷ ("event_type", event_type)
      ∷ ("payload", payload)
      ∷ ("prev_hash", prev_hash)
      ∷ []))

unfoldable pub loaded_line : Loaded → String
unfolding dumps
loaded_line e = dumps spaced (
    object (
      ("seq", e.seq)
      ∷ ("timestamp", e.timestamp)
      ∷ ("event_type", e.event_type)
      ∷ ("payload", e.payload)
      ∷ ("prev_hash", e.prev_hash)
      ∷ ("entry_hash", e.entry_hash)
      ∷ []))

-- The sequence number and the previous hash for the next entry.
unfoldable pub next_fields : Hooks → List String → Result (Json × Json)
unfolding from_json_line
next_fields h lines = elim (get_last? lines) [
  | none ↦ ok (num (pos 1), str genesis_hash)
  | some line ↦
      from_json_line h line >>= λ prev. plus_one prev.seq >>= λ seq. ok (seq, prev.entry_hash)
]

module _ (sha256_hex : String → String) where
  unfoldable pub loaded_hash : Loaded → String
  unfolding loaded_canonical
  loaded_hash e = sha256_hex (loaded_canonical e.seq e.timestamp e.event_type e.payload e.prev_hash)

  -- The loop of `verify_chain` over what was read.
  unfoldable pub verify_loaded : String → ℕ → List Loaded → Verdict
  unfolding loaded_hash show
  verify_loaded prev_hash expected_seq [] = (true, none)
  verify_loaded prev_hash expected_seq (entry ∷ entries) =
      let rest = verify_loaded (loaded_hash entry) (expected_seq + 1) entries in
      if is_int entry.seq expected_seq
      then (if is_str entry.prev_hash prev_hash
          then (if is_str entry.entry_hash (loaded_hash entry) then rest else (
            false,
            some (
                "entry seq="
                <> show entry.seq
                <> " entry_hash does not match its own content (tampered)"),
          ))
          else (
            false,
            some (
                "entry seq=" <> show entry.seq <> " prev_hash mismatch (chain broken or tampered)"),
          ))
      else (
        false,
        some (
            "entry at position "
            <> decimal expected_seq
            <> " has seq="
            <> show entry.seq
            <> " (gap or reorder)"),
      )

  -- AuditLogger.verify_chain
  unfoldable pub verify_file : Hooks → String → Result Verdict
  unfolding read_all verify_loaded
  verify_file h text = read_all h text >>= λ entries. ok (verify_loaded genesis_hash 1 entries)

  -- The entry with its hash.
  unfoldable pub seal_loaded : String → String → Json → Json × Json → Loaded
  unfolding loaded_canonical
  seal_loaded timestamp event_type payload (seq, prev_hash) = record {
    seq = seq;
    timestamp = str timestamp;
    event_type = str event_type;
    payload = payload;
    prev_hash = prev_hash;
    entry_hash =
        str (sha256_hex (loaded_canonical seq (str timestamp) (str event_type) payload prev_hash));
  }

  -- AuditLogger.append: the new entry, and the text of the file after it.
  unfoldable pub append_file : Hooks → String → String → Json → String → Result (Loaded × String)
  unfolding next_fields written_lines loaded_line seal_loaded
  append_file h timestamp event_type payload text = next_fields h (written_lines text) >>= λ link.
      let entry = seal_loaded timestamp event_type payload link in
      ok (entry, text <> (loaded_line entry <> "\n"))

  -- The file after calls of `append`, oldest first.
  unfoldable pub append_all_file : Hooks → Appends → String → Result String
  unfolding append_file
  append_all_file h [] text = ok text
  append_all_file h ((timestamp, event_type, payload) ∷ calls) text =
      append_file h timestamp event_type payload text >>= λ r. append_all_file h calls r.1

-- ===== src/Audit/Refines.antt =====
-- The file of the log and the log itself: what is read from the file, and what is written to it.
use oracle_patching.Prelude.{
  ℕ, ◌+◌, String, ◌<>◌, ◌≡◌, refl, sym, ap, ◌∙◌, inl, inr, false, some, [], ◌∷◌, map, arith, str_eq,
  eq_iff, ◌==◌, if◌then◌else◌, Bool-cases, All, All-append,
}
use oracle_patching.Errors.{ok, ◌>>=◌}
use oracle_patching.Text.Decimal.{decimal, decimal_ℤ}
use oracle_patching.Json.{Json, num, str, dumps, compact}
use oracle_patching.Json.Show.{show, json_repr}
use oracle_patching.Json.Scan.{Hooks}
use oracle_patching.Json.Distinct.{Distinct}
use oracle_patching.Json.Sorted.{normalize}
use oracle_patching.Json.Normal.{dumps-of_normalize}
use oracle_patching.Audit.{
  AuditEntry, Log, genesis_hash, Verdict, canonical, to_json_line, verify_from, verify_chain,
  append, seal, next_link, pos, gap_reason, link_reason, hash_reason,
}
use oracle_patching.Audit.Append.{passed, Appends, append_all, append_all-from_empty}
use oracle_patching.Audit.File.{log_text, lines_of_log, log_text-append}
use oracle_patching.Audit.ReadBack.{
  loaded, Payloads, from_json_line-to_json_line, read_all-log_text,
}
use oracle_patching.Audit.Read.{
  append_all_file, Loaded, loaded_canonical, loaded_line, loaded_hash, verify_loaded, verify_file,
  next_fields, seal_loaded, append_file,
}

canonical-loaded :
    (e : AuditEntry)
    → loaded_canonical
        (num (pos e.seq))
        (str e.timestamp)
        (str e.event_type)
        (normalize e.payload)
        (str e.prev_hash)
      ≡ canonical e.seq e.timestamp e.event_type e.payload e.prev_hash
unfolding loaded_canonical canonical dumps
canonical-loaded e = rw (dumps-of_normalize compact e.payload refl) refl

show-seq : (n : ℕ) → show (num (pos n)) ≡ decimal n
unfolding show json_repr decimal_ℤ
show-seq n = refl

str_eq_comm : (s t : String) → str_eq s t ≡ str_eq t s
str_eq_comm s t = ground (arith, eq_iff s t, eq_iff t s)

-- The same continuation, where two texts are compared in either order.
hash_checked :
    (s t : String) (f g : String → Verdict) (refused : Verdict)
    → f t ≡ g t
    → (if str_eq t s then f s else refused) ≡ (if str_eq s t then g t else refused)
hash_checked s t f g refused e = elim (Bool-cases (str_eq s t)) [
  | inl same ↦ rw (str_eq_comm t s, same) (ap f ((eq_iff s t).0 same) ∙ e)
  | inr differ ↦ rw (str_eq_comm t s, differ) refl
]

next_fields-map :
    (h : Hooks) (log : Log)
    → Payloads log
    → next_fields h (map to_json_line log)
      ≡ ok (num (pos (next_link (1, genesis_hash) log).0), str (next_link (1, genesis_hash) log).1)
unfolding next_fields
next_fields-map h [] p = refl
next_fields-map h (e ∷ []) (d, p) =
    rw (from_json_line-to_json_line h e d)
      (ap (λ n. ok (num (pos n), str e.entry_hash)) (omega arith))
next_fields-map h (e ∷ (f ∷ log)) (d, p) = next_fields-map h (f ∷ log) p

-- The entry as it is in memory, before its payload is read back.
abbrev pub written : AuditEntry → Loaded
written e = record {
  seq = num (pos e.seq);
  timestamp = str e.timestamp;
  event_type = str e.event_type;
  payload = e.payload;
  prev_hash = str e.prev_hash;
  entry_hash = str e.entry_hash;
}

loaded_line-written : (e : AuditEntry) → loaded_line (written e) ≡ to_json_line e
unfolding loaded_line to_json_line
loaded_line-written e = refl

module _ (sha256_hex : String → String) where
  pub verify_loaded-loaded :
      (prev : String) (n : ℕ) (log : Log)
      → verify_loaded sha256_hex prev n (map loaded log) ≡ verify_from sha256_hex prev n log
  unfolding verify_loaded verify_from loaded_hash
  verify_loaded-loaded prev n [] = refl
  verify_loaded-loaded prev n (e ∷ log) =
      let hash = sha256_hex (canonical e.seq e.timestamp e.event_type e.payload e.prev_hash) in
      let gap : Verdict = (false, some (gap_reason n e.seq)) in
      let link : Verdict = (false, some (link_reason e.seq)) in
      rw (canonical-loaded e, show-seq e.seq)
        (ap (λ v. if e.seq == n then (if str_eq e.prev_hash prev then v else link) else gap)
          (hash_checked hash e.entry_hash (λ p. verify_loaded sha256_hex p (n + 1) (map loaded log))
            (λ p. verify_from sha256_hex p (n + 1) log) (false, some (hash_reason e.seq))
            (verify_loaded-loaded e.entry_hash (n + 1) log)))

  -- `verify_chain` on the file of a log and on the log come to one verdict.
  verify_file-log_text :
      (h : Hooks) (log : Log)
      → Payloads log
      → verify_file sha256_hex h (log_text log) ≡ ok (verify_chain sha256_hex log)
  unfolding verify_file verify_chain
  verify_file-log_text h log p =
      ap (λ r. r >>= λ entries. ok (verify_loaded sha256_hex genesis_hash 1 entries))
        (read_all-log_text h log p)
      ∙ ap ok (verify_loaded-loaded genesis_hash 1 log)

  seal_loaded-seal :
      (timestamp event_type : String) (payload : Json) (link : ℕ × String)
      → seal_loaded sha256_hex timestamp event_type payload (num (pos link.0), str link.1)
        ≡ written (seal sha256_hex timestamp event_type payload link)
  unfolding seal_loaded loaded_canonical canonical
  seal_loaded-seal timestamp event_type payload link = refl

  -- `append` on the file of a log writes the file of the log with the new entry.
  append_file-log_text :
      (h : Hooks) (timestamp event_type : String) (payload : Json) (log : Log)
      → Payloads log
      → append_file sha256_hex h timestamp event_type payload (log_text log)
        ≡ ok (
          written (append sha256_hex timestamp event_type payload log).0,
          log_text (append sha256_hex timestamp event_type payload log).1,
        )
  unfolding append_file append
  append_file-log_text h timestamp event_type payload log p =
      let link = next_link (1, genesis_hash) log in
      let e = seal sha256_hex timestamp event_type payload link in
      let text = log_text log in
      ap
        (λ r. r >>= λ fields.
          let entry = seal_loaded sha256_hex timestamp event_type payload fields in
          ok (entry, text <> (loaded_line entry <> "\n")))
        (ap (next_fields h) (lines_of_log log) ∙ next_fields-map h log p)
      ∙ ap (λ entry. ok (entry, text <> (loaded_line entry <> "\n")))
          (seal_loaded-seal timestamp event_type payload link)
      ∙ ap (λ t. ok (written e, t))
          (ap (λ line. text <> (line <> "\n")) (loaded_line-written e)
            ∙ sym (log_text-append log e))

  -- Where the file holds a log, none of whose payloads has an object with one key twice: the
  -- `verify_chain` of the file returns, with the verdict on the log; and `append` to the file returns
  -- the entry that is appended to the log, and leaves the file of the log with that entry.
  pub file-refines_log :
      (h : Hooks) (timestamp event_type : String) (payload : Json) (log : Log)
      → Payloads log
      → (verify_file sha256_hex h (log_text log) ≡ ok (verify_chain sha256_hex log))
        × (append_file sha256_hex h timestamp event_type payload (log_text log)
            ≡ ok (
              written (append sha256_hex timestamp event_type payload log).0,
              log_text (append sha256_hex timestamp event_type payload log).1,
            ))
  file-refines_log h timestamp event_type payload log p =
      (verify_file-log_text h log p, append_file-log_text h timestamp event_type payload log p)

  append-Payloads :
      (timestamp event_type : String) (payload : Json) (log : Log)
      → Payloads log
      → Distinct payload
      → Payloads (append sha256_hex timestamp event_type payload log).1
  unfolding append
  append-Payloads timestamp event_type payload log p d =
      All-append (λ (e : AuditEntry). Distinct e.payload) log _ p (d, tt)

  append_all-Payloads :
      (calls : Appends) (log : Log)
      → Payloads log
      → All (λ call. Distinct call.2) calls
      → Payloads (append_all sha256_hex calls log)
  unfolding append_all
  append_all-Payloads [] log p d = p
  append_all-Payloads ((timestamp, event_type, payload) ∷ calls) log p (d, ds) =
      append_all-Payloads calls _ (append-Payloads timestamp event_type payload log p d) ds

  append_all_file-log_text :
      (h : Hooks) (calls : Appends) (log : Log)
      → Payloads log
      → All (λ call. Distinct call.2) calls
      → append_all_file sha256_hex h calls (log_text log)
        ≡ ok (log_text (append_all sha256_hex calls log))
  unfolding append_all_file append_all
  append_all_file-log_text h [] log p d = refl
  append_all_file-log_text h ((timestamp, event_type, payload) ∷ calls) log p (d, ds) =
      ap (λ r. r >>= λ (s : Loaded × String). append_all_file sha256_hex h calls s.1)
        (append_file-log_text h timestamp event_type payload log p)
      ∙ append_all_file-log_text h calls (append sha256_hex timestamp event_type payload log).1
          (append-Payloads timestamp event_type payload log p d) ds

  -- From an empty file on, any calls of `append` whose payloads have no object with one key twice all
  -- return, and `verify_chain` accepts the file that they leave.
  pub append_all_file-verify_file :
      (h : Hooks) (calls : Appends)
      → All (λ call. Distinct call.2) calls
      → (append_all_file sha256_hex h calls "" >>= verify_file sha256_hex h) ≡ ok passed
  unfolding log_text
  append_all_file-verify_file h calls d =
      let log = append_all sha256_hex calls [] in
      ap (λ r. r >>= verify_file sha256_hex h) (append_all_file-log_text h calls [] tt d)
      ∙ verify_file-log_text h log (append_all-Payloads calls [] tt d)
      ∙ ap ok (append_all-from_empty sha256_hex calls).0

-- ===== src/Audit/FileTests.antt =====
-- A file with one entry, whose payload has its keys out of order; the digest is the identity.
use oracle_patching.Prelude.{String, ◌≡◌, refl, ◌≢◌, ◌⊎◌, true, false, some, [], ◌∷◌}
use oracle_patching.Errors.{ok, ◌>>=◌}
use oracle_patching.Json.{Json, bool, str, object}
use oracle_patching.Json.Read.{no_hooks}
use oracle_patching.Json.Distinct.{has_key, Distinct}
use oracle_patching.Json.Sorted.{normalize}
use oracle_patching.Audit.{
  AuditEntry, genesis_hash, canonical, to_json_line, append, seal, verify_chain, hash_reason,
}
use oracle_patching.Audit.File.{log_text}
use oracle_patching.Audit.Append.{passed, Appends}
use oracle_patching.Audit.Binding.{Collision}
use oracle_patching.Audit.Read.{from_json_line, verify_file, append_file, append_all_file}
use oracle_patching.Audit.ReadBack.{loaded, from_json_line-to_json_line}
use oracle_patching.Audit.Refines.{written, file-refines_log, append_all_file-verify_file}
use oracle_patching.Audit.Tamper.{attack, tampering}
use oracle_patching.Audit.Tampered.{tampering_detected}

abbrev identity : String → String
identity s = s

abbrev host : Json
host = object (("ok", bool true) ∷ ("host", str "db1") ∷ [])

abbrev scanned : AuditEntry
scanned = seal identity "t1" "scan" host (1, genesis_hash)

host-Distinct : Distinct host
unfolding has_key
host-Distinct = (refl, tt, (refl, tt, tt))

scanned-accepted : verify_chain identity (scanned ∷ []) ≡ passed
unfolding verify_chain canonical
scanned-accepted = refl

from_json_line-to_json_line_example :
    from_json_line no_hooks (to_json_line scanned) ≡ ok (loaded scanned)
from_json_line-to_json_line_example = from_json_line-to_json_line no_hooks scanned host-Distinct

file-refines_log_example :
    (verify_file identity no_hooks (log_text (scanned ∷ []))
      ≡ ok (verify_chain identity (scanned ∷ [])))
    × (append_file identity no_hooks "t2" "snapshot" (str "b") (log_text (scanned ∷ []))
        ≡ ok (
          written (append identity "t2" "snapshot" (str "b") (scanned ∷ [])).0,
          log_text (append identity "t2" "snapshot" (str "b") (scanned ∷ [])).1,
        ))
file-refines_log_example =
    file-refines_log identity no_hooks "t2" "snapshot" (str "b") (scanned ∷ []) (host-Distinct, tt)

abbrev calls : Appends
calls = ("t1", "scan", host) ∷ ("t2", "snapshot", str "b") ∷ []

append_all_file-verify_file_example :
    (append_all_file identity no_hooks calls "" >>= verify_file identity no_hooks) ≡ ok passed
append_all_file-verify_file_example =
    append_all_file-verify_file identity no_hooks calls (host-Distinct, (tt, tt))

host-differs : normalize host ≢ attack
unfolding normalize
host-differs e = cc

tampering_detected_example :
    (tampering identity no_hooks (log_text (scanned ∷ []))
      ≡ ok (some (false, some (hash_reason 1))))
    ⊎ Collision identity
tampering_detected_example =
    tampering_detected identity no_hooks scanned [] (host-Distinct, tt) host-differs
      scanned-accepted

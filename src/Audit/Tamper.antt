-- ===== src/Audit/Tamper.antt =====
-- Patching_Agentic/demo.py, step 7: a copy of the log whose first entry is rewritten.
use oracle_patching.Prelude.{String, ◌<>◌, Option, none, some, List, [], ◌∷◌}
use oracle_patching.Errors.{Result, ok, raise, ◌>>=◌, value_error, type_error}
use oracle_patching.Text.{join}
use oracle_patching.Json.{Json, str, obj, object, dumps, plain}
use oracle_patching.Json.Scan.{Hooks}
use oracle_patching.Json.Read.{loads, put}
use oracle_patching.Scanner.{splitlines}
use oracle_patching.Audit.{Verdict}
use oracle_patching.Audit.Read.{verify_file}

-- tampered["payload"] = {"attacker": "rewrote this entry"}
abbrev pub attack : Json
attack = object (("attacker", str "rewrote this entry") ∷ [])

unfoldable pub with_payload : Json → Result Json
unfolding put
with_payload (obj fs) = ok (obj (put "payload" attack fs))
with_payload j = raise (type_error "item assignment")

unfoldable pub tampered_line : Hooks → String → Option Json → Result String
unfolding with_payload dumps
tampered_line h line none = raise (value_error (h.message line))
tampered_line h line (some j) = with_payload j >>= λ tampered. ok (dumps plain tampered)

-- The text with the first line rewritten, none where there are no lines.
unfoldable pub rewritten : Hooks → List String → Result (Option String)
unfolding tampered_line loads join
rewritten h [] = ok none
rewritten h (line ∷ lines) =
    tampered_line h line (loads h line) >>= λ new. ok (some (join "\n" (new ∷ lines) <> "\n"))

unfoldable pub tamper : Hooks → String → Result (Option String)
unfolding rewritten splitlines
tamper h text = rewritten h (splitlines text)

-- What `verify_chain` says of the copy.
unfoldable pub verify_copy : (String → String) → Hooks → Option String → Result (Option Verdict)
unfolding verify_file
verify_copy sha256_hex h none = ok none
verify_copy sha256_hex h (some text) =
    verify_file sha256_hex h text >>= λ verdict. ok (some verdict)

unfoldable pub tampering : (String → String) → Hooks → String → Result (Option Verdict)
unfolding tamper verify_copy
tampering sha256_hex h text = tamper h text >>= verify_copy sha256_hex h

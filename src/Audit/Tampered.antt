-- ===== src/Audit/Tampered.antt =====
-- The rewritten copy of a log is not accepted.
use oracle_patching.Prelude.{
  String, ◌<>◌, ◌≡◌, refl, sym, ap, ◌∙◌, ◌≢◌, ◌⊎◌, inl, inr, false, Option, some, List, [], ◌∷◌,
  map, arith, str_eq, eq_iff, Bool-cases,
}
use text.Mathlib.TextLemmas.{append_assoc as text_append_assoc}
use oracle_patching.Errors.{Result, ok, ◌>>=◌}
use oracle_patching.Text.{join}
use oracle_patching.Prelude.Int.{pos}
use oracle_patching.Json.{Json, Fields, num, str, obj, field, end, object, dumps, plain, spaced}
use oracle_patching.Json.Chars.{chars}
use oracle_patching.Json.Scan.{Hooks, skip}
use oracle_patching.Json.Read.{loads, put}
use oracle_patching.Json.Lines.{dumps-Visible}
use oracle_patching.Json.Distinct.{Distinct, has_key}
use oracle_patching.Json.RoundTrip.{loads-unsorted_blank}
use oracle_patching.Json.ReadParts.{Gaps}
use oracle_patching.Json.Sorted.{normalize, loads-sorted, spaced-Gaps}
use oracle_patching.Scanner.{splitlines, lines, crlf, member}
use oracle_patching.Item.{item}
use oracle_patching.Audit.{
  AuditEntry, Log, genesis_hash, entry_members, to_json_line, verify_from, verify_chain,
  hash_reason,
}
use oracle_patching.Audit.Append.{passed, verify_from-cons}
use oracle_patching.Audit.File.{log_text, splitlines-line, to_json_line-Visible}
use oracle_patching.Audit.Binding.{content, Collision, same_or_Collision}
use oracle_patching.Audit.Content.{content-SameFields}
use oracle_patching.Audit.Read.{
  Loaded, entry_of, from_json_line, read_entries, read_all, verify_loaded, verify_file, file_lines,
}
use oracle_patching.Audit.ReadBack.{
  loaded, Payloads, file_lines-line, read_entries-line, newline-stops, object-tail_not_blank,
  read_all-log_text, to_json_line-dumps, entry-Distinct,
}
use oracle_patching.Audit.Refines.{verify_loaded-loaded}
use oracle_patching.Audit.Tamper.{
  attack, with_payload, tampered_line, rewritten, tamper, verify_copy, tampering,
}

-- The entry with the payload of the attack, and its hash as it was.
abbrev pub forged : AuditEntry → AuditEntry
forged e = record e { payload = attack }

abbrev forged_fields : AuditEntry → Fields
forged_fields e = field "entry_hash" (str e.entry_hash) (
    field "event_type" (str e.event_type) (
      field "payload" attack (
        field "prev_hash" (str e.prev_hash)
          (field "seq" (num (pos e.seq)) (field "timestamp" (str e.timestamp) end)))))

abbrev forged_line : AuditEntry → String
forged_line e = dumps plain (obj (forged_fields e))

plain-Gaps : Gaps plain
unfolding chars skip
plain-Gaps = record {
  item_gap = " " ∷ [];
  key_gap = " " ∷ [];
  item_written = refl;
  key_written = refl;
  item_blank = λ cs. refl;
  key_blank = λ cs. refl;
  unsorted = refl;
}

forged_fields-Distinct : (e : AuditEntry) → Distinct (obj (forged_fields e))
unfolding has_key
forged_fields-Distinct e =
    (refl, tt, (refl, tt, (refl, (refl, tt, tt), (refl, tt, (refl, tt, (refl, tt, tt))))))

splitlines-log_text : (log : Log) → splitlines (log_text log) ≡ map to_json_line log
unfolding log_text
splitlines-log_text [] = unfold splitlines in unfold crlf in unfold lines in refl
splitlines-log_text (e ∷ log) =
    splitlines-line (to_json_line e) (log_text log) (to_json_line-Visible e)
    ∙ ap (λ ls. to_json_line e ∷ ls) (splitlines-log_text log)

join-log_text :
    (line : String) (log : Log)
    → join "\n" (line ∷ map to_json_line log) <> "\n" ≡ line <> ("\n" <> log_text log)
unfolding join log_text
join-log_text line [] = refl
join-log_text line (e ∷ log) =
    text_append_assoc line ("\n" <> join "\n" (map to_json_line (e ∷ log))) "\n"
    ∙ ap (λ t. line <> t)
        (text_append_assoc "\n" (join "\n" (map to_json_line (e ∷ log))) "\n"
          ∙ ap (λ t. "\n" <> t) (join-log_text (to_json_line e) log))

with_payload-members :
    (e : AuditEntry)
    → with_payload (normalize (object (entry_members e))) ≡ ok (obj (forged_fields e))
unfolding with_payload normalize put
with_payload-members e = refl

tamper-log_text :
    (h : Hooks) (e : AuditEntry) (log : Log)
    → Distinct e.payload
    → tamper h (log_text (e ∷ log)) ≡ ok (some (forged_line e <> ("\n" <> log_text log)))
unfolding tamper rewritten tampered_line
tamper-log_text h e log d =
    let line = to_json_line e in
    let lines = map to_json_line log in
    let finish : String → Result (Option String) =
      λ new. ok (some (join "\n" (new ∷ lines) <> "\n")) in
    ap (rewritten h) (splitlines-log_text (e ∷ log))
    ∙ ap (λ j. tampered_line h line j >>= finish)
        (ap (loads h) (to_json_line-dumps e)
          ∙ loads-sorted h spaced (object (entry_members e)) refl spaced-Gaps (entry-Distinct e d))
    ∙ ap (λ (r : Result Json). r >>= (λ j. ok (dumps plain j)) >>= finish) (with_payload-members e)
    ∙ ap (λ t. ok (some t)) (join-log_text (forged_line e) log)

entry_of-forged :
    (h : Hooks) (line : String) (e : AuditEntry)
    → entry_of h line (some (obj (forged_fields e))) ≡ ok (loaded (forged e))
unfolding entry_of item member normalize
entry_of-forged h line e = refl

read_all-forged :
    (h : Hooks) (e : AuditEntry) (log : Log)
    → Payloads log
    → read_all h (forged_line e <> ("\n" <> log_text log)) ≡ ok (map loaded (forged e ∷ log))
unfolding read_all
read_all-forged h e log p =
    let line = forged_line e in
    let shown = dumps-Visible plain (refl, (refl, tt)) (refl, (refl, tt)) (obj (forged_fields e)) in
    ap (read_entries h) (file_lines-line line (log_text log) shown)
    ∙ read_entries-line h (line <> "\n") (file_lines (log_text log)) (loaded (forged e))
        (object-tail_not_blank plain (forged_fields e) "\n")
        (unfold from_json_line in
          ap (entry_of h (line <> "\n")) (
            loads-unsorted_blank h plain plain-Gaps (obj (forged_fields e)) "\n"
              (forged_fields-Distinct e) newline-stops.0 newline-stops.1)
          ∙ entry_of-forged h (line <> "\n") e)
    ∙ ap (λ r. r >>= λ entries. ok (loaded (forged e) ∷ entries)) (read_all-log_text h log p)

module _ (sha256_hex : String → String) where
  verify_chain-hash :
      (e : AuditEntry) (log : Log)
      → e.seq ≡ 1
      → e.prev_hash ≡ genesis_hash
      → str_eq (sha256_hex (content e)) e.entry_hash ≡ false
      → verify_chain sha256_hex (e ∷ log) ≡ (false, some (hash_reason e.seq))
  unfolding verify_chain verify_from
  verify_chain-hash e log n p b = ground (arith, eq_iff e.prev_hash genesis_hash)

  -- Equal contents have equal payloads.
  forged-content :
      (e : AuditEntry)
      → Distinct e.payload
      → normalize e.payload ≢ attack
      → content (forged e) ≢ content e
  unfolding normalize has_key
  forged-content e d differ same =
      let fields = content-SameFields (forged e) e (refl, tt, tt) d same in
      differ (sym fields.payload)

  verify_forged :
      (e : AuditEntry) (log : Log)
      → Distinct e.payload
      → normalize e.payload ≢ attack
      → verify_chain sha256_hex (e ∷ log) ≡ passed
      → (verify_chain sha256_hex (forged e ∷ log) ≡ (false, some (hash_reason 1)))
        ⊎ Collision sha256_hex
  unfolding verify_chain
  verify_forged e log d differ h =
      let (l, h') = verify_from-cons sha256_hex genesis_hash 1 e log h in
      let hash = sha256_hex (content (forged e)) in
      elim (Bool-cases (str_eq hash e.entry_hash)) [
        | inl same ↦
            elim (same_or_Collision sha256_hex (content (forged e)) (content e)
              ((eq_iff hash e.entry_hash).0 same ∙ sym l.hashed)) [
                | inl equal ↦ absurd (forged-content e d differ equal)
                | inr collision ↦ inr collision
              ]
        | inr other ↦ inl (
            verify_chain-hash (forged e) log l.numbered l.linked other
            ∙ ap (λ n. (false, some (hash_reason n))) l.numbered)
      ]

  tampering-log_text :
      (h : Hooks) (e : AuditEntry) (log : Log)
      → Payloads (e ∷ log)
      → tampering sha256_hex h (log_text (e ∷ log))
        ≡ ok (some (verify_chain sha256_hex (forged e ∷ log)))
  unfolding tampering verify_copy verify_file verify_chain
  tampering-log_text h e log (d, p) =
      ap (λ r. r >>= verify_copy sha256_hex h) (tamper-log_text h e log d)
      ∙ ap
          (λ (r : Result (List Loaded)).
            r >>= (λ entries. ok (verify_loaded sha256_hex genesis_hash 1 entries)) >>= λ verdict.
            ok (some verdict))
          (read_all-forged h e log p)
      ∙ ap (λ v. ok (some v)) (verify_loaded-loaded sha256_hex genesis_hash 1 (forged e ∷ log))

  -- If `verify_chain` accepts a log that is not empty, none of its payloads has an object with one key
  -- twice, and the first payload is not the one that the demonstration writes, then the rewritten
  -- copy of the file is rejected, for the hash of its first entry, or two different texts with one
  -- digest are at hand.
  pub tampering_detected :
      (h : Hooks) (e : AuditEntry) (log : Log)
      → Payloads (e ∷ log)
      → normalize e.payload ≢ attack
      → verify_chain sha256_hex (e ∷ log) ≡ passed
      → (tampering sha256_hex h (log_text (e ∷ log)) ≡ ok (some (false, some (hash_reason 1))))
        ⊎ Collision sha256_hex
  tampering_detected h e log (d, p) differ accepted = elim (verify_forged e log d differ accepted) [
    | inl rejected ↦ inl (tampering-log_text h e log (d, p) ∙ ap (λ v. ok (some v)) rejected)
    | inr collision ↦ inr collision
  ]

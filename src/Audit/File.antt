-- ===== src/Audit/File.antt =====
-- The text of the audit file, and its lines.
use oracle_patching.Prelude.{
  Char, String, ◌<>◌, ◌≡◌, refl, sym, ap, ◌∙◌, false, List, [], ◌∷◌, ◌++◌, map, arith,
  if◌then◌else◌,
}
use text.Mathlib.TextLemmas.{nil-append, cons-append, append_assoc as text_append_assoc}
use oracle_patching.Text.{join, is_empty, is_space, strip}
use oracle_patching.Json.{dumps, spaced}
use oracle_patching.Json.Lines.{Visible, dumps-Visible}
use oracle_patching.Scanner.{is_line_break, crlf, lines, splitlines}
use oracle_patching.Audit.{AuditEntry, Log, entry_members, to_json_line, append}
use oracle_patching.Json

-- What the calls of `fh.write` leave in the file.
unfoldable pub log_text : Log → String
log_text [] = ""
log_text (e ∷ log) = to_json_line e <> ("\n" <> log_text log)

-- The lines that are not blank.
abbrev pub non_blank : List String → List String
non_blank [] = []
non_blank (l ∷ ls) = if is_empty (strip l) then non_blank ls else l ∷ non_blank ls

-- [line for line in text.splitlines() if line.strip()]
unfoldable pub written_lines : String → List String
unfolding splitlines strip
written_lines text = non_blank (splitlines text)

pub newline_front : (rest : String) → "" <> ("\n" <> rest) ≡ String.◌∷◌ "\n" rest
newline_front rest =
    nil-append ("\n" <> rest) ∙ cons-append "\n" "" rest ∙ ap (String.◌∷◌ "\n") (nil-append rest)

pub crlf-line :
    (s rest : String) → Visible s → crlf (s <> ("\n" <> rest)) ≡ s <> ("\n" <> crlf rest)
unfolding crlf
crlf-line String.[] rest v = ap crlf (newline_front rest) ∙ sym (newline_front (crlf rest))
crlf-line (String.◌∷◌ c s) rest (x, v) =
    rw (cons-append c s ("\n" <> rest), cons-append c s ("\n" <> crlf rest), crlf-line s rest v)
      (ground arith)

lines-line : (s rest : String) → Visible s → lines (s <> ("\n" <> rest)) ≡ s ∷ lines rest
unfolding lines is_line_break
lines-line String.[] rest v = ap lines (newline_front rest)
lines-line (String.◌∷◌ c s) rest (x, v) =
    rw (cons-append c s ("\n" <> rest), lines-line s rest v) (ground arith)

pub splitlines-line :
    (s rest : String) → Visible s → splitlines (s <> ("\n" <> rest)) ≡ s ∷ splitlines rest
unfolding splitlines
splitlines-line s rest v = ap lines (crlf-line s rest v) ∙ lines-line s (crlf rest) v

pub to_json_line-Visible : (e : AuditEntry) → Visible (to_json_line e)
unfolding to_json_line
to_json_line-Visible e =
    dumps-Visible spaced (refl, (refl, tt)) (refl, (refl, tt)) (Json.object (entry_members e))

-- A text that starts with a visible character other than the space is not blank.
pub not_blank :
    (c : Char) (s : String) → is_space c ≡ false → is_empty (strip (String.◌∷◌ c s)) ≡ false
unfolding strip
not_blank c s h = rw h (rw h refl)

pub braced-not_blank : (body : String) → is_empty (strip ("{" <> body)) ≡ false
braced-not_blank body =
    ap (λ t. is_empty (strip t)) (cons-append "{" "" body ∙ ap (String.◌∷◌ "{") (nil-append body))
    ∙ not_blank "{" body (unfold is_space in refl)

object-not_blank : (fs : Json.Fields) → is_empty (strip (dumps spaced (Json.obj fs))) ≡ false
unfolding dumps
object-not_blank fs =
    braced-not_blank
      (join ", " (map (Json.member spaced) (Json.sort_keys (Json.dump_fields spaced fs))) <> "}")

pub to_json_line-not_blank : (e : AuditEntry) → is_empty (strip (to_json_line e)) ≡ false
unfolding to_json_line
to_json_line-not_blank e = object-not_blank (Json.fields (entry_members e))

pub lines_of_log : (log : Log) → written_lines (log_text log) ≡ map to_json_line log
unfolding log_text written_lines splitlines
lines_of_log [] = refl
lines_of_log (e ∷ log) =
    ap non_blank (splitlines-line (to_json_line e) (log_text log) (to_json_line-Visible e))
    ∙ rw (to_json_line-not_blank e) (ap (λ l. to_json_line e ∷ l) (lines_of_log log))

pub log_text-append :
    (log : Log) (e : AuditEntry)
    → log_text (log ++ e ∷ []) ≡ log_text log <> (to_json_line e <> "\n")
unfolding log_text
log_text-append [] e = sym (nil-append (to_json_line e <> "\n"))
log_text-append (d ∷ log) e =
    let line = to_json_line d in
    let new = to_json_line e <> "\n" in
    ap (λ t. line <> ("\n" <> t)) (log_text-append log e)
    ∙ ap (λ t. line <> t) (sym (text_append_assoc "\n" (log_text log) new))
    ∙ sym (text_append_assoc line ("\n" <> log_text log) new)

-- If the file holds what `append` wrote for a log, then its lines that are not blank are the lines
-- of the entries, in their order; and what `append` writes at its end, the line of the new entry and
-- a newline, makes it the text of the log with that entry.
pub written_lines-log_text :
    (sha256_hex : String → String) (timestamp event_type : String) (payload : Json.Json) (log : Log)
    → (written_lines (log_text log) ≡ map to_json_line log)
      × (log_text (append sha256_hex timestamp event_type payload log).1
          ≡ log_text log
            <> (to_json_line (append sha256_hex timestamp event_type payload log).0 <> "\n"))
unfolding append
written_lines-log_text sha256_hex timestamp event_type payload log =
    (lines_of_log log, log_text-append log _)

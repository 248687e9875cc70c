-- ===== src/Audit/ReadBack.antt =====
-- The file of a log is read back as its entries.
use oracle_patching.Prelude.{
  String, ◌<>◌, ◌≡◌, refl, sym, ap, ◌∙◌, true, false, some, List, [], ◌∷◌, map, arith, All,
}
use text.Mathlib.TextLemmas.{
  append-nil as text_append-nil, cons-append, append_assoc as text_append_assoc,
}
use oracle_patching.Errors.{ok, ◌>>=◌}
use oracle_patching.Text.{is_empty, strip}
use oracle_patching.Json.{Separators, Fields, obj, fields, num, str, object, dumps, spaced}
use oracle_patching.Json.Chars.{chars}
use oracle_patching.Json.Scan.{Hooks, skip}
use oracle_patching.Json.Read.{loads}
use oracle_patching.Json.Distinct.{Distinct, has_key}
use oracle_patching.Json.Sorted.{normalize, loads-sorted_blank, spaced-Gaps}
use oracle_patching.Json.ReadNumber.{stops}
use oracle_patching.Json.Lines.{Visible}
use oracle_patching.Item.{item}
use oracle_patching.Scanner.{crlf, member}
use oracle_patching.Audit.{AuditEntry, Log, entry_members, to_json_line, pos}
use oracle_patching.Audit.File.{
  log_text, crlf-line, to_json_line-Visible, braced-not_blank, newline_front,
}
use oracle_patching.Audit.Read.{
  Loaded, entry_of, from_json_line, line_feeds, newline_lines, file_lines, read_entries, read_all,
}

-- What is read of the line of an entry: its payload has its keys sorted.
abbrev pub loaded : AuditEntry → Loaded
loaded e = record {
  seq = num (pos e.seq);
  timestamp = str e.timestamp;
  event_type = str e.event_type;
  payload = normalize e.payload;
  prev_hash = str e.prev_hash;
  entry_hash = str e.entry_hash;
}

-- No object in a payload has a key twice.
abbrev pub Payloads : Log → Type 0
Payloads log = All (λ e. Distinct e.payload) log

pub entry-Distinct : (e : AuditEntry) → Distinct e.payload → Distinct (object (entry_members e))
unfolding has_key
entry-Distinct e d = (refl, tt, (refl, tt, (refl, tt, (refl, d, (refl, tt, (refl, tt, tt))))))

pub to_json_line-dumps : (e : AuditEntry) → to_json_line e ≡ dumps spaced (object (entry_members e))
unfolding to_json_line
to_json_line-dumps e = refl

pub entry_of-members :
    (h : Hooks) (line : String) (e : AuditEntry)
    → entry_of h line (some (normalize (object (entry_members e)))) ≡ ok (loaded e)
unfolding entry_of item normalize member
entry_of-members h line e = refl

-- The line of an entry, and blanks behind it, is read as that entry.
from_json_line-of_tail :
    (h : Hooks) (e : AuditEntry) (tail : String)
    → stops (chars tail) ≡ true
    → skip (chars tail) ≡ []
    → Distinct e.payload
    → from_json_line h (to_json_line e <> tail) ≡ ok (loaded e)
unfolding from_json_line
from_json_line-of_tail h e tail s b d =
    ap (entry_of h (to_json_line e <> tail)) (
      ap (λ t. loads h (t <> tail)) (to_json_line-dumps e)
      ∙ loads-sorted_blank h spaced (object (entry_members e)) tail refl spaced-Gaps
          (entry-Distinct e d) s b)
    ∙ entry_of-members h (to_json_line e <> tail) e

pub newline-stops : (stops (chars "\n") ≡ true) × (skip (chars "\n") ≡ [])
unfolding chars skip
newline-stops = (refl, refl)

from_json_line-newline :
    (h : Hooks) (e : AuditEntry)
    → Distinct e.payload
    → from_json_line h (to_json_line e <> "\n") ≡ ok (loaded e)
from_json_line-newline h e d = from_json_line-of_tail h e "\n" newline-stops.0 newline-stops.1 d

-- If no object in the payload of an entry has a key twice, then `from_json_line` reads the line that
-- `to_json_line` writes, and gives the entry back, with the keys of its payload sorted.
pub from_json_line-to_json_line :
    (h : Hooks) (e : AuditEntry)
    → Distinct e.payload
    → from_json_line h (to_json_line e) ≡ ok (loaded e)
unfolding chars skip
from_json_line-to_json_line h e d =
    ap (from_json_line h) (sym (text_append-nil (to_json_line e)))
    ∙ from_json_line-of_tail h e "" refl refl d

line_feeds-line :
    (s rest : String)
    → Visible s
    → line_feeds (s <> ("\n" <> rest)) ≡ s <> ("\n" <> line_feeds rest)
unfolding line_feeds
line_feeds-line String.[] rest v =
    ap line_feeds (newline_front rest) ∙ sym (newline_front (line_feeds rest))
line_feeds-line (String.◌∷◌ c s) rest (x, v) =
    rw
      (
        cons-append c s ("\n" <> rest),
        cons-append c s ("\n" <> line_feeds rest),
        line_feeds-line s rest v,
      )
      (ground arith)

newline_lines-line :
    (s rest : String)
    → Visible s
    → newline_lines (s <> ("\n" <> rest)) ≡ (s <> "\n") ∷ newline_lines rest
unfolding newline_lines
newline_lines-line String.[] rest v = ap newline_lines (newline_front rest)
newline_lines-line (String.◌∷◌ c s) rest (x, v) =
    rw (cons-append c s ("\n" <> rest), cons-append c s "\n", newline_lines-line s rest v)
      (ground arith)

pub file_lines-line :
    (s rest : String) → Visible s → file_lines (s <> ("\n" <> rest)) ≡ (s <> "\n") ∷ file_lines rest
unfolding file_lines
file_lines-line s rest v =
    ap (λ t. newline_lines (line_feeds t)) (crlf-line s rest v)
    ∙ ap newline_lines (line_feeds-line s (crlf rest) v)
    ∙ newline_lines-line s (line_feeds (crlf rest)) v

pub object-tail_not_blank :
    (p : Separators) (fs : Fields) (tail : String)
    → is_empty (strip (dumps p (obj fs) <> tail)) ≡ false
unfolding dumps
object-tail_not_blank p fs tail =
    ap (λ t. is_empty (strip t)) (text_append_assoc "{" _ tail) ∙ braced-not_blank _

line-not_blank : (e : AuditEntry) → is_empty (strip (to_json_line e <> "\n")) ≡ false
line-not_blank e =
    ap (λ t. is_empty (strip (t <> "\n"))) (to_json_line-dumps e)
    ∙ object-tail_not_blank spaced (fields (entry_members e)) "\n"

pub read_entries-line :
    (h : Hooks) (line : String) (lines : List String) (entry : Loaded)
    → is_empty (strip line) ≡ false
    → from_json_line h line ≡ ok entry
    → read_entries h (line ∷ lines) ≡ (read_entries h lines >>= λ entries. ok (entry ∷ entries))
unfolding read_entries
read_entries-line h line lines entry b e = rw (read_entries, b) (rw e refl)

pub read_all-nil : (h : Hooks) → read_all h "" ≡ ok []
unfolding read_all read_entries file_lines newline_lines line_feeds crlf
read_all-nil h = refl

-- The file of a log is read as the entries of the log.
pub read_all-log_text :
    (h : Hooks) (log : Log) → Payloads log → read_all h (log_text log) ≡ ok (map loaded log)
unfolding log_text read_all
read_all-log_text h [] p = read_all-nil h
read_all-log_text h (e ∷ log) (d, p) =
    let line = to_json_line e in
    ap (read_entries h) (file_lines-line line (log_text log) (to_json_line-Visible e))
    ∙ read_entries-line h (line <> "\n") (file_lines (log_text log)) (loaded e) (line-not_blank e)
        (from_json_line-newline h e d)
    ∙ ap (λ r. r >>= λ entries. ok (loaded e ∷ entries)) (read_all-log_text h log p)

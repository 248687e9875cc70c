-- ===== src/Monitor/Script.antt =====
-- Patching_Agentic/rag/ingestion/patch_release_monitor.py, run as a script.
use oracle_patching.Prelude.{
  ℕ, String, ◌<>◌, ◌⊎◌, inl, inr, Option, none, some, List, [], ◌∷◌, ◌++◌, map, length, take,
}
use oracle_patching.Errors.{Exc, Result, ok, raise, os_error}
use oracle_patching.Text.Decimal.{decimal}
use oracle_patching.Monitor.{AdvisoryEntry, Readers, Failure, StateFile, check_for_new_release}

-- What the script comes to: an exit status with what it printed, or the exception that ended it, and
-- the state file. The error of a download goes to the error output.
pub data Printed : Type 0 where
  exits : ℕ → List String → Printed
  raises : Failure → Printed
  download_raises : Exc → Printed

-- fetch_feed, of what the download gives: the page, or the exception that `urlopen` or the reading
-- raises. URLError and TimeoutError are OSErrors; any other exception is not caught.
unfoldable pub fetch_feed : String → Result String → Result (String ⊎ String)
fetch_feed url (ok page) = ok (inl page)
fetch_feed url (raise (os_error m)) = ok (inr ("Could not fetch " <> url <> ": " <> m))
fetch_feed url (raise e) = raise e

abbrev pub entry_line : AdvisoryEntry → String
entry_line e = "  - " <> e.title <> " (" <> e.pub_date <> ")\n    " <> e.link

abbrev pub news_lines : Option AdvisoryEntry → List String
news_lines none = "\nNo new quarterly CPU advisory since the last check." ∷ []
news_lines (some e) =
    ("\nNEW since last check: " <> e.title)
    ∷ ("  " <> e.link)
    ∷ "\nThis only means a new advisory was PUBLISHED — the patch itself still"
    ∷ "requires MOS access to download. See cowork_prompt/download_cpu_patch.md."
    ∷ []

unfoldable pub report_check : (Option AdvisoryEntry × List AdvisoryEntry) ⊎ Failure → Printed
report_check (inl (new_entry, entries)) = exits 0 (
    (decimal (length entries) <> " quarterly CPU advisory entries in the feed. Most recent 3:")
    ∷ (map entry_line (take 3 entries) ++ news_lines new_entry))
report_check (inr failure) = raises failure

unfoldable pub on_feed : Readers → Result (String ⊎ String) → StateFile → Printed × StateFile
unfolding check_for_new_release report_check
on_feed readers (ok (inl feed_xml)) state =
    let (checked, after) = check_for_new_release readers feed_xml state in
    (report_check checked, after)
on_feed readers (ok (inr m)) state =
    (exits 1 (("Could not check for new releases: " <> m) ∷ []), state)
on_feed readers (raise e) state = (download_raises e, state)

unfoldable pub script : Readers → String → Result String → StateFile → Printed × StateFile
unfolding on_feed fetch_feed
script readers url download state = on_feed readers (fetch_feed url download) state

-- ===== src/Monitor/Tests.antt =====
-- A feed with one advisory of each kind.
use oracle_patching.Prelude.{String, ◌≡◌, refl, inl, true, none, some, List, [], ◌∷◌}
use oracle_patching.Monitor.{AdvisoryEntry, Item, Readers, guid_text, check_for_new_release}
use oracle_patching.Json.Read.{no_hooks, loads}
use oracle_patching.Monitor.Script.{exits, script}
use oracle_patching.Errors.{ok}
use oracle_patching.Monitor.Twice.{reading, check_for_new_release-twice}

abbrev advisory_of : String → String → Item
advisory_of title guid = record {
  title = some title;
  link = none;
  pub_date = none;
  guid = some guid;
}

abbrev feed : List Item
feed =
    advisory_of "Oracle Critical Security Patch Update Advisory - May 2026" "m5"
    ∷ advisory_of "Oracle Critical Patch Update Advisory - April 2026" "q4"
    ∷ []

abbrev april : AdvisoryEntry
april = record {
  title = "Oracle Critical Patch Update Advisory - April 2026";
  link = "";
  pub_date = "";
  guid = "q4";
}

abbrev json_readers : Readers
json_readers = reading no_hooks (λ text. inl feed) (λ c. true)

april_is_new :
    check_for_new_release json_readers "<rss/>" none
    ≡ (inl (some april, april ∷ []), some (guid_text "q4"))
unfolding check_for_new_release
april_is_new = refl

check_for_new_release-twice_example :
    check_for_new_release json_readers "<rss/>" (some (guid_text "q4"))
    ≡ (inl (none, april ∷ []), some (guid_text "q4"))
check_for_new_release-twice_example =
    check_for_new_release-twice no_hooks (λ text. inl feed) (λ c. true) "<rss/>" none (some april)
      (april ∷ []) (some (guid_text "q4")) april_is_new

-- A script that finds the feed as it was a quarter ago says so.
script_run :
    (script json_readers "u" (ok "<rss/>") (some (guid_text "q4"))).0
    ≡ exits 0 (
        "1 quarterly CPU advisory entries in the feed. Most recent 3:"
        ∷ "  - Oracle Critical Patch Update Advisory - April 2026 ()\n    "
        ∷ "\nNo new quarterly CPU advisory since the last check." ∷ [])
unfolding script check_for_new_release guid_text loads
script_run = refl

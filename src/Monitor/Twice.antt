-- ===== src/Monitor/Twice.antt =====
-- A second check, with the state file that the first one left.
use oracle_patching.Prelude.{Char, String, ◌≡◌, ◌⊎◌, inl, Bool, Option, none, List}
use oracle_patching.Json.Scan.{Hooks}
use oracle_patching.Json.Read.{loads}
use oracle_patching.Json.ReadIndented.{loads-dumps_indented}
use oracle_patching.Monitor.{
  AdvisoryEntry, Item, Readers, StateFile, guid_text, check_for_new_release,
}
use oracle_patching.Monitor.News.{ReadsBack, check_for_new_release-again}

-- The readers, with `json.loads` as it is.
abbrev pub reading : Hooks → (String → List Item ⊎ String) → (Char → Bool) → Readers
reading h feed_items is_wide_word = record {
  feed_items = feed_items;
  loads = loads h;
  is_wide_word = is_wide_word;
}

module _ (h : Hooks) (feed_items : String → List Item ⊎ String) (is_wide_word : Char → Bool) where
  guid-ReadsBack : (guid : String) → ReadsBack (reading h feed_items is_wide_word) guid
  unfolding guid_text
  guid-ReadsBack guid = loads-dumps_indented "last_seen_guid" guid h

  -- A check that returned is followed, on the same feed and with the state file that it left, by a
  -- check that returns the same entries, reports none as new and leaves the state file as it is.
  pub check_for_new_release-twice :
      (feed_xml : String) (state : StateFile) (new : Option AdvisoryEntry)
      (entries : List AdvisoryEntry) (state' : StateFile)
      → check_for_new_release (reading h feed_items is_wide_word) feed_xml state
        ≡ (inl (new, entries), state')
      → check_for_new_release (reading h feed_items is_wide_word) feed_xml state'
        ≡ (inl (none, entries), state')
  check_for_new_release-twice feed_xml state new entries state' e =
      check_for_new_release-again (reading h feed_items is_wide_word) feed_xml state new entries
        state' (λ newest older same. guid-ReadsBack newest.guid) e

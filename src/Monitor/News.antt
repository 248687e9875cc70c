-- ===== src/Monitor/News.antt =====
-- When the monitor reports a release.
use oracle_patching.Prelude.{
  ◌≤◌, String, ◌<>◌, ◌≡◌, refl, sym, ap, ◌∙◌, subst, ◌⊎◌, inl, inr, true, false, Option, none, some,
  List, [], ◌∷◌, arith, eq_iff,
}
use text.Mathlib.TextLemmas.{nil-append, cons-append}
use oracle_patching.Text.{has_prefix, str_drop, str_len}
use oracle_patching.Json.{Json, str, object}
use oracle_patching.Monitor.{
  AdvisoryEntry, Readers, Failure, StateFile, quarterly_title, guid_text, is_quarterly,
  starts_with_word, is_word, parse_quarterly_cpu_entries, member_of, read_last_seen_guid,
  compare_newest, check_entries, check_for_new_release,
}

module _ (readers : Readers) where
  -- What is after the prefix decides.
  starts_with-append :
      (p s : String) → (has_prefix p (p <> s) ≡ true) × (str_drop (str_len p) (p <> s) ≡ s)
  unfolding has_prefix str_drop
  starts_with-append String.[] s = (refl, nil-append s)
  starts_with-append (String.◌∷◌ c p) s =
      rw (cons-append c p s) (ground (arith, starts_with-append p s), (starts_with-append p s).1)

  has_prefix-append_false :
      (p a s : String)
      → has_prefix p a ≡ false
      → str_len p ≤ str_len a
      → has_prefix p (a <> s) ≡ false
  unfolding has_prefix
  has_prefix-append_false String.[] a s h l = cc
  has_prefix-append_false (String.◌∷◌ c p) String.[] s h l = absurd (omega arith)
  has_prefix-append_false (String.◌∷◌ c p) (String.◌∷◌ d a) s h l =
      rw (cons-append d a s) (ground (arith, has_prefix-append_false p a s))

  dash_ends_word : (rest : String) → starts_with_word readers (" - " <> rest) ≡ false
  unfolding starts_with_word is_word
  dash_ends_word rest = rw (cons-append " " "- " rest) refl

  -- A title of the quarterly kind is recognised, whatever month it names; a title of the monthly kind,
  -- which has "Security" after "Critical", is not, whatever follows.
  pub is_quarterly-tells_apart :
      (rest : String)
      → (is_quarterly readers (quarterly_title <> (" - " <> rest)) ≡ true)
        × (is_quarterly readers ("Oracle Critical Security Patch Update Advisory" <> rest) ≡ false)
  unfolding is_quarterly
  is_quarterly-tells_apart rest =
      let (found, left) = starts_with-append quarterly_title (" - " <> rest) in
      let monthly : String = "Oracle Critical Security Patch Update Advisory" in
      let other : has_prefix quarterly_title (monthly <> rest) ≡ false =
        has_prefix-append_false quarterly_title monthly rest (unfold has_prefix in refl)
          (omega arith) in
      (rw (found, left, dash_ends_word rest) refl, rw other refl)

  -- The text of the state for a guid is read back as it was written.
  abbrev pub ReadsBack : String → Type 0
  ReadsBack guid =
      readers.loads (guid_text guid) ≡ some (object (("last_seen_guid", str guid) ∷ []))

  read-guid_text :
      (guid : String)
      → ReadsBack guid
      → read_last_seen_guid readers (some (guid_text guid)) ≡ inl (str guid)
  unfolding read_last_seen_guid member_of
  read-guid_text guid back =
      rw (back, read_last_seen_guid) (ground (arith, eq_iff "last_seen_guid" "last_seen_guid"))

  -- A second comparison with the state that the first left.
  compare-again :
      (newest : AdvisoryEntry) (older : List AdvisoryEntry) (state : StateFile)
      (seen : Json ⊎ Failure) (new : Option AdvisoryEntry) (entries : List AdvisoryEntry)
      (state' : StateFile)
      → ReadsBack newest.guid
      → compare_newest readers newest (newest ∷ older) state seen ≡ (inl (new, entries), state')
      → check_entries readers (newest ∷ older) state' ≡ (inl (none, entries), state')
  unfolding compare_newest check_entries
  compare-again newest older state (inl last_seen) new entries state' back h =
      let file : some (guid_text newest.guid) ≡ state' = cc in
      let all : newest ∷ older ≡ entries = cc in
      subst (λ f. check_entries readers (newest ∷ older) f ≡ (inl (none, entries), f)) file
        (subst
          (λ es.
            check_entries readers (newest ∷ older) (some (guid_text newest.guid))
            ≡ (inl (none, es), some (guid_text newest.guid)))
          all
          (ap (compare_newest readers newest (newest ∷ older) (some (guid_text newest.guid)))
              (read-guid_text newest.guid back)
            ∙ rw ((eq_iff newest.guid newest.guid).1 refl) refl))
  compare-again newest older state (inr failure) new entries state' back h = cc

  same_entries :
      (newest : AdvisoryEntry) (older : List AdvisoryEntry) (state : StateFile)
      (seen : Json ⊎ Failure) (new : Option AdvisoryEntry) (entries : List AdvisoryEntry)
      (state' : StateFile)
      → compare_newest readers newest (newest ∷ older) state seen ≡ (inl (new, entries), state')
      → newest ∷ older ≡ entries
  unfolding compare_newest
  same_entries newest older state (inl last_seen) new entries state' h = cc
  same_entries newest older state (inr failure) new entries state' h = cc

  check_entries-again :
      (es : List AdvisoryEntry) (state : StateFile) (new : Option AdvisoryEntry)
      (entries : List AdvisoryEntry) (state' : StateFile)
      → ((newest : AdvisoryEntry) (older : List AdvisoryEntry)
          → entries ≡ newest ∷ older
          → ReadsBack newest.guid)
      → check_entries readers es state ≡ (inl (new, entries), state')
      → check_entries readers es state' ≡ (inl (none, entries), state')
  unfolding check_entries
  check_entries-again [] state new entries state' back h =
      let all : [] ≡ entries = cc in ap (λ l. (inl (none, l), state')) all
  check_entries-again (newest ∷ older) state new entries state' back h =
      compare-again newest older state (read_last_seen_guid readers state) new entries state'
        (back newest older (
          sym (
            same_entries newest older state (read_last_seen_guid readers state) new entries state'
              h)))
        h

  -- If the text that is written for the newest entry's guid is read back as it was written, then a
  -- check that returned is followed, on the same feed, by a check that returns the same entries,
  -- reports none as new and leaves the state as it is.
  pub check_for_new_release-again :
      (feed_xml : String) (state : StateFile) (new : Option AdvisoryEntry)
      (entries : List AdvisoryEntry) (state' : StateFile)
      → ((newest : AdvisoryEntry) (older : List AdvisoryEntry)
          → entries ≡ newest ∷ older
          → ReadsBack newest.guid)
      → check_for_new_release readers feed_xml state ≡ (inl (new, entries), state')
      → check_for_new_release readers feed_xml state' ≡ (inl (none, entries), state')
  unfolding check_for_new_release
  check_for_new_release-again feed_xml state new entries state' back h =
      from (parse_quarterly_cpu_entries readers feed_xml) refl h
    where
      from :
          (r : List AdvisoryEntry ⊎ Failure)
          → parse_quarterly_cpu_entries readers feed_xml ≡ r
          → check_for_new_release readers feed_xml state ≡ (inl (new, entries), state')
          → check_for_new_release readers feed_xml state' ≡ (inl (none, entries), state')
      from (inl es) e h =
          rw (e, check_for_new_release)
            (check_entries-again es state new entries state' back
              (rw (e, check_for_new_release) at h))
      from (inr f) e h = let x = rw (e, check_for_new_release) at h in cc

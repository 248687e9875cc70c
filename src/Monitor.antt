-- ===== src/Monitor.antt =====
-- Patching_Agentic/rag/ingestion/patch_release_monitor.py: has a new quarterly advisory been
-- published?
pub mod News
pub mod Script
pub mod Twice
mod Tests
use oracle_patching.Prelude.{
  ◌-◌, ◌/◌, ◌<◌, compare, Char, code, String, ◌<>◌, ◌⊎◌, inl, inr, Bool, true, false, not, ◌&&◌,
  ◌||◌, Option, none, some, List, [], ◌∷◌, str_eq, ltb, leb, ◌==◌, if◌then◌else◌,
}
use oracle_patching.Text.{has_prefix, str_drop, str_len, strip, is_digit}
use oracle_patching.Json.{Json, null, str, obj, field, end, object}
use oracle_patching.Json.Indent.{dumps_indented}

pub record AdvisoryEntry : Type 0 where
  pub title : String
  pub link : String
  pub pub_date : String
  pub guid : String

-- An `item` of the feed: the text of its four children, `none` where a child is missing.
pub record Item : Type 0 where
  pub title : Option String
  pub link : Option String
  pub pub_date : Option String
  pub guid : Option String

-- `ET.fromstring` with `findall("./channel/item")`, or the message of the ParseError; `json.loads`,
-- `none` being a JSONDecodeError; and `\w` beyond ASCII.
pub record Readers : Type 0 where
  pub feed_items : String → List Item ⊎ String
  pub loads : String → Option Json
  pub is_wide_word : Char → Bool

-- How the check may fail: FeedFetchError, or the AttributeError of `.get` on what is no object.
pub data Failure : Type 0 where
  feed_fetch_error : String → Failure
  attribute_error : Failure

abbrev pub quarterly_title : String
quarterly_title = "Oracle Critical Patch Update Advisory"

-- (item.findtext(…) or "").strip()
unfoldable pub text_of : Option String → String
unfolding strip
text_of none = ""
text_of (some s) = strip s

-- The files of the last check, `none` where there is none.
abbrev pub StateFile : Type 0
StateFile = Option String

-- `_write_last_seen_guid`
unfoldable pub guid_text : String → String
unfolding dumps_indented
guid_text guid = dumps_indented false 0 (object (("last_seen_guid", str guid) ∷ []))

module _ (readers : Readers) where
  -- \w
  unfoldable pub is_word : Char → Bool
  is_word c =
      let n = code c in
      if ltb n 128
      then is_digit c || n == b'_' || (leb b'A' n && leb n b'Z') || (leb b'a' n && leb n b'z')
      else readers.is_wide_word c

  starts_with_word : String → Bool
  unfolding is_word
  starts_with_word String.[] = false
  starts_with_word (String.◌∷◌ c s) = is_word c

  -- _QUARTERLY_CPU_TITLE_RE.match(title): the prefix ends in a word character, so that the `\b` after
  -- it asks for the end or for another kind of character.
  unfoldable pub is_quarterly : String → Bool
  unfolding has_prefix str_drop starts_with_word
  is_quarterly title =
      has_prefix quarterly_title title
      && not (starts_with_word (str_drop (str_len quarterly_title) title))

  abbrev pub advisory : Item → AdvisoryEntry
  advisory item = record {
    title = text_of item.title;
    link = text_of item.link;
    pub_date = text_of item.pub_date;
    guid = text_of item.guid;
  }

  -- The loop over the items.
  unfoldable pub quarterly_entries : List Item → List AdvisoryEntry
  unfolding is_quarterly text_of
  quarterly_entries [] = []
  quarterly_entries (item ∷ rest) =
      let entries = quarterly_entries rest in
      if is_quarterly (text_of item.title) then advisory item ∷ entries else entries

  unfoldable pub parse_quarterly_cpu_entries : String → List AdvisoryEntry ⊎ Failure
  unfolding quarterly_entries
  parse_quarterly_cpu_entries feed_xml = elim (readers.feed_items feed_xml) [
    | inl found ↦ inl (quarterly_entries found)
    | inr message ↦ inr (feed_fetch_error ("Feed XML did not parse: " <> message))
  ]

  -- `.get("last_seen_guid")`; of two members with one name the last counts, which a text that was
  -- read never has.
  unfoldable pub member_of : String → Json → Json ⊎ Failure
  member_of k (obj (field j v fs)) =
      let rest = member_of k (obj fs) in if str_eq j k then inl v else rest
  member_of k (obj end) = inl null
  member_of k j = inr attribute_error

  -- `_read_last_seen_guid`: `null` is None.
  unfoldable pub read_last_seen_guid : StateFile → Json ⊎ Failure
  unfolding member_of
  read_last_seen_guid none = inl null
  read_last_seen_guid (some text) = elim (readers.loads text) [
    | none ↦ inl null
    | some j ↦ member_of "last_seen_guid" j
  ]

  -- `newest.guid != last_seen_guid`
  unfoldable pub differs : String → Json → Bool
  differs guid (str s) = not (str_eq guid s)
  differs guid j = true

  abbrev pub Checked : Type 0
  Checked = (Option AdvisoryEntry × List AdvisoryEntry) ⊎ Failure

  compare_newest :
      AdvisoryEntry → List AdvisoryEntry → StateFile → Json ⊎ Failure → Checked × StateFile
  unfolding differs guid_text
  compare_newest newest entries state (inl last_seen) = (
    inl (if differs newest.guid last_seen then some newest else none, entries),
    some (guid_text newest.guid),
  )
  compare_newest newest entries state (inr failure) = (inr failure, state)

  check_entries : List AdvisoryEntry → StateFile → Checked × StateFile
  unfolding compare_newest read_last_seen_guid
  check_entries [] state = (inl (none, []), state)
  check_entries (newest ∷ older) state =
      compare_newest newest (newest ∷ older) state (read_last_seen_guid state)

  -- The new entry, if any, with all quarterly entries; and the state file afterwards.
  unfoldable pub check_for_new_release : String → StateFile → Checked × StateFile
  unfolding parse_quarterly_cpu_entries check_entries
  check_for_new_release feed_xml state = elim (parse_quarterly_cpu_entries feed_xml) [
    | inl entries ↦ check_entries entries state
    | inr failure ↦ (inr failure, state)
  ]

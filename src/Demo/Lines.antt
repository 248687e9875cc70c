-- ===== src/Demo/Lines.antt =====
-- What the demonstration prints of the values that the parts return.
use oracle_patching.Prelude.{
  ℕ, zero, suc, String, ◌<>◌, true, false, Option, none, some, List, [], ◌∷◌, if◌then◌else◌,
  get_last?,
}
use oracle_patching.Errors.{Result, ok, raise, type_error, value_error, attribute_error}
use oracle_patching.Text.{str_take, is_empty, strip}
use oracle_patching.Text.Decimal.{decimal_ℤ}
use oracle_patching.Json.{object, Json, Items, bool, num, str, arr, obj, nil, cons, end}
use oracle_patching.Json.Show.{show}
use oracle_patching.World.{M, ◌>>=◌, ◌>>◌, pure, lift, print}
use oracle_patching.Item.{item}
use oracle_patching.Scanner
use oracle_patching.Scanner.{splitlines, type_name}
use oracle_patching.Dmz.{FileRecord}
use oracle_patching.Retrieval.{Payload}
use oracle_patching.Audit.{Verdict}
use oracle_patching.Audit.Read.{Loaded}

unfoldable pub print_all : List String → M Unit
print_all [] = pure tt
print_all (line ∷ lines) = print line >> print_all lines

-- f"{label}{value[key]}"
unfoldable pub print_item : String → String → Json → M Unit
unfolding item show
print_item label key j = lift (item key j) >>= λ v. print (label <> show v)

-- for x in value, where the elements of a text or of a dict have no item "raw"
unfoldable pub iterated : Json → Result Items
iterated (arr xs) = ok xs
iterated (obj end) = ok nil
iterated (str String.[]) = ok nil
iterated j = raise (type_error (type_name j))

-- a, b, … = lines[:6]
unfoldable pub six_readings : String → List String → Result String
six_readings sid (open_mode ∷ (status ∷ (role ∷ (flashback ∷ (dg_lag ∷ (db_version ∷ more)))))) =
    ok (
      "CDB " <> sid <> ":         " <> open_mode <> " / " <> status <> " / " <> role
      <> " / flashback=" <> flashback <> " / DG apply lag=" <> dg_lag <> " / version="
      <> db_version)
six_readings sid lines = raise (value_error "not enough values to unpack")

raw_lines : Json → Result (List String)
unfolding splitlines
raw_lines (str s) = ok (splitlines s)
raw_lines j = raise (attribute_error (type_name j))

-- The values are unpacked before the SID is looked up.
unfoldable pub print_cdb : Json → M Unit
unfolding six_readings raw_lines item show
print_cdb cdb = do
  raw ← lift (item "raw" cdb)
  lines ← lift (raw_lines raw)
  _ ← lift (six_readings "" lines)
  sid ← lift (item "sid" cdb)
  line ← lift (six_readings (show sid) lines)
  print line

unfoldable pub print_cdbs : Items → M Unit
unfolding print_cdb
print_cdbs nil = pure tt
print_cdbs (cons cdb cdbs) = print_cdb cdb >> print_cdbs cdbs

print_os : Json → M Unit
unfolding item show
print_os os = do
  distribution ← lift (item "distribution" os)
  version ← lift (item "distribution_version" os)
  print ("OS:              " <> show distribution <> " " <> show version)

unfoldable pub print_scan : Json → M Unit
unfolding print_item print_os iterated print_cdbs item
print_scan scan_result = do
  _ ← print_item "Host:            " "host" scan_result
  os ← lift (item "os" scan_result)
  _ ← print_os os
  _ ← print_item "Oracle Home:     " "oracle_home" scan_result
  _ ← print_item "OPatch version:  " "opatch_version" scan_result
  cdbs ← lift (item "cdbs" scan_result)
  xs ← lift (iterated cdbs)
  print_cdbs xs

abbrev pub file_line : FileRecord → String
unfolding str_take
file_line f = "  - " <> f.name <> " (sha256 " <> str_take 12 f.sha256 <> "...)"

-- print(f"  - {hit['id']}: {hit['title']}") for each hit
unfoldable pub print_hits : List Payload → M Unit
unfolding item show
print_hits [] = pure tt
print_hits (hit ∷ hits) = do
  id ← lift (item "id" (object hit.body))
  title ← lift (item "title" (object hit.body))
  _ ← print ("  - " <> show id <> ": " <> show title)
  print_hits hits

-- A text with blanks behind it, up to the width.
unfoldable pub padded : ℕ → String → String
padded zero s = s
padded (suc n) String.[] = String.◌∷◌ " " (padded n "")
padded (suc n) (String.◌∷◌ c s) = String.◌∷◌ c (padded n s)

-- f"{value:<n}"
unfoldable pub formatted : ℕ → Json → Result String
unfolding padded decimal_ℤ
formatted n (num k) = ok (padded n (decimal_ℤ k))
formatted n (str s) = ok (padded n s)
formatted n (bool true) = ok (padded n "1")
formatted n (bool false) = ok (padded n "0")
formatted n j = raise (type_error (type_name j))

-- The three last entries that were read.
unfoldable pub print_entries : List Loaded → M Unit
unfolding formatted show Scanner.get
print_entries [] = pure tt
print_entries (e ∷ es) = do
  seq ← lift (formatted 4 e.seq)
  event_type ← lift (formatted 20 e.event_type)
  passed ← lift (Scanner.get "ok" (str "-") e.payload)
  _ ← print ("  seq=" <> seq <> " " <> event_type <> " ok=" <> show passed)
  print_entries es

-- entries[-3:]
unfoldable pub last_three : List Loaded → List Loaded
last_three (a ∷ (b ∷ (c ∷ (d ∷ es)))) = last_three (b ∷ (c ∷ (d ∷ es)))
last_three es = es

-- {'OK' if ok else f'BROKEN — {reason}'}
abbrev pub verdict_text : Verdict → String
verdict_text (true, reason) = "OK"
verdict_text (false, some reason) = "BROKEN — " <> reason
verdict_text (false, none) = "BROKEN — None"

abbrev last_or : String → Option String → String
last_or otherwise none = otherwise
last_or otherwise (some line) = line

-- The last line of the output of the tests; the output is tested after strip().
unfoldable pub tests_line : String → String → String
unfolding strip splitlines
tests_line otherwise output =
    let text = strip output in
    if is_empty text then otherwise else last_or "" (get_last? (splitlines text))

-- ===== src/Scanner.antt =====
-- Patching_Agentic/agents/scanner/scanner.py: the live version in the result of a scan.
pub mod Scan
pub mod Sound
mod Tests
use oracle_patching.Prelude.{
  ℕ, zero, suc, ◌-◌, ◌/◌, ◌<◌, Char, code, String, ◌<>◌, ◌⊎◌, inl, inr, Bool, true, false, not,
  ◌&&◌, ◌||◌, Option, none, some, List, [], ◌∷◌, str_eq, leb, ◌==◌, if◌then◌else◌,
}
use oracle_patching.Prelude.Int.{is_zero}
use oracle_patching.Json.{
  Json, Items, Fields, null, bool, num, str, arr, obj, nil, cons, end, field,
}
use oracle_patching.Errors.{
  Result, ok, raise, ◌>>=◌, ◌>>◌, attribute_error, type_error, scan_failed, missing_key,
}
use oracle_patching.Text.{contains, push_char, is_empty, strip}

-- A boundary of `str.splitlines`, of one character.
unfoldable pub is_line_break : Char → Bool
is_line_break c =
    let n = code c in
    (leb 10 n && leb n 13) || (leb 28 n && leb n 30) || n == 133 || n == 8232 || n == 8233

unfoldable pub starts_with_newline : String → Bool
starts_with_newline String.[] = false
starts_with_newline (String.◌∷◌ c s) = code c == 10

-- A carriage return and a newline are one boundary.
unfoldable pub crlf : String → String
unfolding starts_with_newline
crlf String.[] = ""
crlf (String.◌∷◌ c s) =
    let rest = crlf s in if code c == 13 && starts_with_newline s then rest else String.◌∷◌ c rest

unfoldable pub lines : String → List String
unfolding is_line_break
lines String.[] = []
lines (String.◌∷◌ c s) =
    let rest = lines s in if is_line_break c then "" ∷ rest else push_char c rest

-- s.splitlines()
unfoldable pub splitlines : String → List String
unfolding crlf lines
splitlines s = lines (crlf s)

unfoldable pub line_at : ℕ → List String → Option String
line_at n [] = none
line_at zero (l ∷ ls) = some l
line_at (suc n) (l ∷ ls) = line_at n ls

-- `version or None`
unfoldable pub non_empty : String → Option String
non_empty s = if is_empty s then none else some s

version_line : Option String → Option String
unfolding non_empty strip
version_line none = none
version_line (some l) = non_empty (strip l)

-- type(value).__name__
unfoldable pub type_name : Json → String
type_name null = "NoneType"
type_name (bool b) = "bool"
type_name (num n) = "int"
type_name (str s) = "str"
type_name (arr xs) = "list"
type_name (obj fs) = "dict"

unfoldable pub member : String → Fields → Option Json
member k end = none
member k (field j v fs) = let rest = member k fs in if str_eq j k then some v else rest

-- `value.get(k, default)`
unfoldable pub get : String → Json → Json → Result Json
unfolding member type_name
get k default (obj fs) = ok (elim (member k fs) [ none ↦ default | some v ↦ v ])
get k default j = raise (attribute_error ("'" <> type_name j <> "' object has no attribute 'get'"))

-- `cdbs or []`, and its element 0 if there is one.
unfoldable pub first_of : Json → Result (Option Json)
first_of null = ok none
first_of (bool b) = if b then raise (type_error "'bool' object is not subscriptable") else ok none
first_of (num n) =
    if is_zero n then ok none else raise (type_error "'int' object is not subscriptable")
first_of (str String.[]) = ok none
first_of (str (String.◌∷◌ c s)) = ok (some (str (String.◌∷◌ c "")))
first_of (arr nil) = ok none
first_of (arr (cons x xs)) = ok (some x)
first_of (obj end) = ok none
first_of (obj (field k v fs)) = raise (missing_key "0")

-- raw.splitlines()
unfoldable pub lines_of : Json → Result (List String)
unfolding splitlines type_name
lines_of (str s) = ok (splitlines s)
lines_of j =
    raise (attribute_error ("'" <> type_name j <> "' object has no attribute 'splitlines'"))

unfoldable pub version_of_cdb : Option Json → Result (Option String)
unfolding get lines_of line_at version_line
version_of_cdb none = ok none
version_of_cdb (some cdb) = do
  raw ← get "raw" (str "") cdb
  output ← lines_of raw
  ok (version_line (line_at 5 output))

unfoldable pub extract_db_version : Json → Result (Option String)
unfolding get first_of version_of_cdb
extract_db_version scan_result = do
  cdbs ← get "cdbs" null scan_result
  first ← first_of cdbs
  version_of_cdb first

abbrev listed : Items → List Json
listed nil = []
listed (cons x xs) = x ∷ listed xs

abbrev keys : Fields → List Json
keys end = []
keys (field k v fs) = str k ∷ keys fs

abbrev characters : String → List Json
characters String.[] = []
characters (String.◌∷◌ c s) = str (String.◌∷◌ c "") ∷ characters s

-- What a `for` over the value goes through.
unfoldable pub elements : Json → Result (List Json)
unfolding type_name
elements (arr xs) = ok (listed xs)
elements (obj fs) = ok (keys fs)
elements (str s) = ok (characters s)
elements j = raise (type_error ("'" <> type_name j <> "' object is not iterable"))

abbrev is_key : Json → Bool
is_key (str s) = str_eq s "scan_result"
is_key j = false

abbrev any_key : List Json → Bool
any_key [] = false
any_key (j ∷ js) = is_key j || any_key js

-- `host_result and "scan_result" in host_result`, and then `host_result["scan_result"]`.
unfoldable pub host_scan_result : Json → Result (Option Json)
unfolding member type_name contains
host_scan_result (obj fs) = ok (member "scan_result" fs)
host_scan_result null = ok none
host_scan_result (bool false) = ok none
host_scan_result (bool true) = raise (type_error "argument of type 'bool' is not iterable")
host_scan_result (num n) =
    if is_zero n then ok none else raise (type_error "argument of type 'int' is not iterable")
host_scan_result (str s) =
    if contains "scan_result" s
    then raise (type_error "string indices must be integers, not 'str'")
    else ok none
host_scan_result (arr xs) =
    if any_key (listed xs)
    then raise (type_error "list indices must be integers or slices, not str")
    else ok none

abbrev pub or_next : Option Json → Result (Option Json) → Result (Option Json)
or_next (some j) rest = ok (some j)
or_next none rest = rest

-- The inner loop, over the tasks of a play.
unfoldable pub search_tasks : String → List Json → Result (Option Json)
unfolding get host_scan_result
search_tasks target [] = ok none
search_tasks target (task ∷ tasks) = do
  hosts ← get "hosts" (obj end) task
  host_result ← get target null hosts
  found ← host_scan_result host_result
  or_next found (search_tasks target tasks)

-- The outer loop, over the plays.
unfoldable pub search_plays : String → List Json → Result (Option Json)
unfolding get elements search_tasks
search_plays target [] = ok none
search_plays target (play ∷ plays) = do
  tasks ← get "tasks" (arr nil) play
  list ← elements tasks
  found ← search_tasks target list
  or_next found (search_plays target plays)

abbrev pub found_or_fail : String → Option Json → Result Json
found_or_fail target (some result) = ok result
found_or_fail target none = raise (
    scan_failed (
      "scan_playbook.yml ran successfully but no 'scan_result' fact was found for '" <> target
      <> "' in its JSON output — playbook structure may have changed without updating this parser."))

-- From the parsed output on.
unfoldable pub search_parsed : String → Json ⊎ String → Result Json
unfolding get elements search_plays
search_parsed target (inr message) =
    raise (scan_failed ("could not parse ansible-playbook JSON callback output: " <> message))
search_parsed target (inl parsed) = do
  plays ← get "plays" (arr nil) parsed
  list ← elements plays
  found ← search_plays target list
  found_or_fail target found

-- The part of `scan` that reads what the playbook printed; `loads` is `json.loads`, or the message of
-- its JSONDecodeError.
unfoldable pub read_output : (String → Json ⊎ String) → String → String → Result Json
unfolding search_parsed
read_output loads target stdout = search_parsed target (loads stdout)

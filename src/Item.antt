-- ===== src/Item.antt =====
-- Subscripts and keyword arguments of values that came from JSON, for dmz_transfer.py,
-- audit/logger.py and demo.py. A TypeError carries the name it is about in place of its message.
use oracle_patching.Prelude.{String, none, some, List, if◌then◌else◌}
use oracle_patching.Json.{Json, Fields, obj, end, field}
use oracle_patching.Errors.{Result, ok, raise, type_error, key_error}
use oracle_patching.Scanner
use oracle_patching.Settings.{is_name}

-- value[key]
unfoldable pub item : String → Json → Result Json
unfolding Scanner.member
item key (obj fs) = elim (Scanner.member key fs) [ some v ↦ ok v | none ↦ raise (key_error key) ]
item key j = raise (type_error key)

-- The `**` of a call takes arguments of these names only.
unfoldable pub only : List String → Fields → Result (Unit {0})
only names end = ok tt
only names (field k v fs) =
    let rest = only names fs in if is_name k names then rest else raise (type_error k)

-- An argument that has no default.
unfoldable pub argument : String → Fields → Result Json
unfolding Scanner.member
argument name fs = elim (Scanner.member name fs) [ some v ↦ ok v | none ↦ raise (type_error name) ]

-- ===== src/Version.antt =====
-- `_parse_version` and `_version_in_range` of Patching_Agentic/executor/executor.py, and
-- `_version_tuple` of Patching_Agentic/rag/retrieval/retrieve.py, which is the same function.
pub mod Order
pub mod Print
pub mod Range
mod Tests
use oracle_patching.Prelude.{
  ◌-◌, ◌/◌, ◌<◌, compare, Ordering, String, ◌<>◌, Bool, true, false, not, Option, none, some, List,
  [], ◌∷◌, if◌then◌else◌,
}
use oracle_patching.Prelude.Int.{ℤ, compare_ℤ}
use oracle_patching.Text.{py_int, split}

infixl 5 ◌>>=◌
abbrev ◌>>=◌ {ℓ κ} : {A : Type ℓ} {B : Type κ} → Option A → (A → Option B) → Option B
none >>= f = none
some a >>= f = f a

-- A tuple of ints.
abbrev pub Version : Type 0
Version = List ℤ

parts : List String → Option Version
unfolding py_int
parts [] = some []
parts (w ∷ ws) = do n ← py_int w; ns ← parts ws; some (n ∷ ns)

-- `none` is the ValueError of `int`.
unfoldable pub version_tuple : String → Option Version
unfolding parts split
version_tuple v = parts (split "." v)

-- The `<=` of tuples.
unfoldable pub tuple_le : Version → Version → Bool
tuple_le [] b = true
tuple_le (x ∷ a) [] = false
tuple_le (x ∷ a) (y ∷ b) =
    let rest = tuple_le a b in
    elim (compare_ℤ x y) [ Ordering.lt ↦ true | Ordering.eq ↦ rest | Ordering.gt ↦ false ]

-- The message of the ValueError.
abbrev pub bad_version : String → String
bad_version v = "'" <> v <> "' is not a valid dotted-integer version string"

-- A value, or the message of the ValueError.
pub data Parsed {ℓ} (A : Type ℓ) : Type ℓ where
  parsed : A → Parsed A
  value_error : String → Parsed A

unfoldable pub parse_version : String → Parsed Version
unfolding version_tuple
parse_version v = elim (version_tuple v) [ none ↦ value_error (bad_version v) | some t ↦ parsed t ]

up_to : Version → Parsed Version → Parsed Bool
unfolding tuple_le
up_to v (value_error m) = value_error m
up_to v (parsed hi) = parsed (tuple_le v hi)

-- The chained comparison: the lower bound is read first, and the upper one only if the lower holds.
unfoldable pub version_in_range : String → String → String → Parsed Bool
unfolding parse_version tuple_le up_to
version_in_range version min_v max_v = elim (parse_version min_v) [
  | value_error m ↦ value_error m
  | parsed lo ↦ elim (parse_version version) [
    | value_error m ↦ value_error m
    | parsed v ↦ if tuple_le lo v then up_to v (parse_version max_v) else parsed false
  ]
]

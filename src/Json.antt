-- ===== src/Json.antt =====
-- `json.dumps`: the values that the program writes, and their text.
-- The values that are written hold no floats.
mod Quote
pub mod Indent
pub mod Show
pub mod Lines
pub mod Scan
pub mod Read
pub mod ReadChar
pub mod ReadText
pub mod ReadNumber
pub mod ReadSteps
pub mod ReadIndented
pub mod Distinct
pub mod Opens
pub mod ReadParts
pub mod RoundTrip
pub mod Sorted
pub mod Normal
pub mod Numeral
pub mod Chars
pub use Quote.{quote}
use text.Mathlib.Text.{is_lt}
use Prim.Native.String
use oracle_patching.Prelude.{
  String, ◌<>◌, Bool, true, false, List, [], ◌∷◌, map, ◌≡◌, refl, if◌then◌else◌,
}
use oracle_patching.Prelude.Int.{ℤ, pos}
use oracle_patching.Text.{join}
use oracle_patching.Text.Decimal.{decimal_ℤ}

mutual
  pub data Json : Type 0 where
    null : Json
    bool : Bool → Json
    num : ℤ → Json
    str : String → Json
    arr : Items → Json
    obj : Fields → Json

  pub data Items : Type 0 where
    nil : Items
    cons : Json → Items → Items

  pub data Fields : Type 0 where
    end : Fields
    field : String → Json → Fields → Fields

abbrev pub fields : List (String × Json) → Fields
fields [] = end
fields ((k, v) ∷ m) = field k v (fields m)

-- A dict display.
abbrev pub object : List (String × Json) → Json
object m = obj (fields m)

abbrev pub items : List Json → Items
items [] = nil
items (x ∷ xs) = cons x (items xs)

unfoldable pub insert_key : String × String → List (String × String) → List (String × String)
insert_key e [] = e ∷ []
insert_key e (g ∷ m) =
    let rest = insert_key e m in if is_lt (String.compare g.0 e.0) then g ∷ rest else e ∷ g ∷ m

-- The members in the order of their keys.
unfoldable pub sort_keys : List (String × String) → List (String × String)
unfolding insert_key
sort_keys [] = []
sort_keys (e ∷ m) = insert_key e (sort_keys m)

-- The `separators` and `sort_keys` arguments.
pub record Separators : Type 0 where
  pub item : String
  pub key : String
  pub sorted : Bool

abbrev pub compact : Separators
compact = record { item = ","; key = ":"; sorted = true }

abbrev pub spaced : Separators
spaced = record { item = ", "; key = ": "; sorted = true }

-- `json.dumps(value)`
abbrev pub plain : Separators
plain = record { item = ", "; key = ": "; sorted = false }

-- The members in the order in which they are written.
abbrev pub ordered : Separators → List (String × String) → List (String × String)
unfolding sort_keys
ordered p m = if p.sorted then sort_keys m else m

unfoldable pub member : Separators → String × String → String
unfolding quote
member p (k, v) = quote k <> p.key <> v

unfoldable mutual
  unfolding decimal_ℤ quote member sort_keys join ordered

  pub dumps : Separators → Json → String
  dumps p null = "null"
  dumps p (bool true) = "true"
  dumps p (bool false) = "false"
  dumps p (num n) = decimal_ℤ n
  dumps p (str s) = quote s
  dumps p (arr xs) = "[" <> join p.item (dump_items p xs) <> "]"
  dumps p (obj fs) = "{" <> join p.item (map (member p) (ordered p (dump_fields p fs))) <> "}"

  pub dump_items : Separators → Items → List String
  dump_items p nil = []
  dump_items p (cons x xs) = dumps p x ∷ dump_items p xs

  pub dump_fields : Separators → Fields → List (String × String)
  dump_fields p end = []
  dump_fields p (field k v fs) = (k, dumps p v) ∷ dump_fields p fs

dumps_sorted :
    dumps compact (object (("b", num (pos 12)) ∷ ("a", str "x\n") ∷ []))
    ≡ "{\"a\":\"x\\n\",\"b\":12}"
unfolding dumps
dumps_sorted = refl

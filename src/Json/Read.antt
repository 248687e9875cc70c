-- ===== src/Json/Read.antt =====
-- `json.loads`: values. `none` is the JSONDecodeError.
use oracle_patching.Prelude.{
  ℕ, zero, suc, Char, code, String, ◌≡◌, refl, true, false, Option, none, some, List, [], ◌∷◌,
  str_eq, ◌==◌, if◌then◌else◌, length,
}
use oracle_patching.Json.{
  Json, Items, Fields, null, bool, num, str, arr, obj, nil, cons, end, field,
}
use oracle_patching.Json.Chars.{chars}
use oracle_patching.Json.Scan.{Hooks, Scan, read_then, skip, string}
use oracle_patching.Json.Numeral.{number}
use oracle_patching.Prelude.Int.{negsuc}

-- The rest of a text that starts with the given one.
unfoldable pub strip_prefix : List Char → List Char → Option (List Char)
strip_prefix [] cs = some cs
strip_prefix (a ∷ more) [] = none
strip_prefix (a ∷ more) (c ∷ cs) = elim (code a == code c) [
  | true ↦ strip_prefix more cs
  | false ↦ none
]

unfoldable pub first_literal : List (String × Json) → List Char → Scan Json
unfolding strip_prefix chars
first_literal [] cs = none
first_literal ((name, j) ∷ more) cs = elim (strip_prefix (chars name) cs) [
  | none ↦ first_literal more cs
  | some rest ↦ some (j, rest)
]

abbrev pub literals : Hooks → List (String × Json)
literals h =
    ("null", null)
    ∷ ("true", bool true)
    ∷ ("false", bool false)
    ∷ ("NaN", h.parse_constant "NaN")
    ∷ ("Infinity", h.parse_constant "Infinity")
    ∷ ("-Infinity", h.parse_constant "-Infinity")
    ∷ []

-- A literal or a number.
unfoldable pub scalar : Hooks → List Char → Scan Json
unfolding first_literal number
scalar h cs = elim (first_literal (literals h) cs) [ none ↦ number h cs | some r ↦ some r ]

-- A dict: a key that stands there already keeps its place and gets the new value.
unfoldable pub put : String → Json → Fields → Fields
put k v end = field k v end
put k v (field l w fs) =
    let rest = put k v fs in if str_eq k l then field l v fs else field l w rest

unfoldable pub dict_from : Fields → Fields → Fields
unfolding put
dict_from dict end = dict
dict_from dict (field k v fs) = dict_from (put k v dict) fs

-- How a value starts.
pub data Start : Type 0 where
  quotation bracket brace other : Start

abbrev pub start : Char → Start
start c =
    let n = code c in
    if n == 34 then quotation else if n == 91 then bracket else if n == 123 then brace else other

-- What follows a member: the closing bracket, or a comma and the text of the next member.
pub data Follow : Type 0 where
  closed more : List Char → Follow
  broken : Follow

unfoldable pub follow : ℕ → List Char → Follow
unfolding skip
follow close [] = broken
follow close (c ∷ cs) =
    if code c == close then closed cs else if code c == 44 then more (skip cs) else broken

-- What follows the given character, after blanks.
unfoldable pub after : ℕ → List Char → Option (List Char)
after n [] = none
after n (c ∷ cs) = if code c == n then some cs else none

unfoldable mutual
  unfolding skip string scalar dict_from follow after

  -- The value in front; the fuel is spent by depth and by members.
  pub value : Hooks → ℕ → List Char → Scan Json
  value h zero cs = none
  value h (suc f) [] = none
  value h (suc f) (c ∷ cs) = elim (start c) [
    | quotation ↦ read_then (string h cs) (λ s rest. some (str s, rest))
    | bracket ↦ elim (after 93 (skip cs)) [
      | some rest ↦ some (arr nil, rest)
      | none ↦ read_then (elements h f (skip cs)) (λ xs rest. some (arr xs, rest))
    ]
    | brace ↦ elim (after 125 (skip cs)) [
      | some rest ↦ some (obj end, rest)
      | none ↦ read_then (members h f (skip cs)) (λ fs rest. some (obj (dict_from end fs), rest))
    ]
    | other ↦ scalar h (c ∷ cs)
  ]

  -- The elements of an array that is not empty, and its closing bracket.
  pub elements : Hooks → ℕ → List Char → Scan Items
  elements h zero cs = none
  elements h (suc f) cs = read_then (value h f cs) (λ x rest. elim (follow 93 (skip rest)) [
    | closed end_of ↦ some (cons x nil, end_of)
    | more next ↦ read_then (elements h f next) (λ xs end_of. some (cons x xs, end_of))
    | broken ↦ none
  ])

  -- The members of an object that is not empty, and its closing brace.
  pub members : Hooks → ℕ → List Char → Scan Fields
  members h zero cs = none
  members h (suc f) cs = elim (after 34 cs) [
    | none ↦ none
    | some inside ↦ read_then (string h inside) (λ k rest. elim (after 58 (skip rest)) [
      | none ↦ none
      | some next ↦ read_then (value h f (skip next)) (λ v rest'. elim (follow 125 (skip rest')) [
        | closed end_of ↦ some (field k v end, end_of)
        | more next' ↦ read_then (members h f next') (λ fs end_of. some (field k v fs, end_of))
        | broken ↦ none
      ])
    ])
  ]

unfoldable pub whole_text : Scan Json → Option Json
unfolding skip
whole_text none = none
whole_text (some (j, rest)) = elim (skip rest) [ [] ↦ some j | c ∷ cs ↦ none ]

-- json.loads(text); no value is deeper, and none has more members, than its text is long.
unfoldable pub loads : Hooks → String → Option Json
unfolding value whole_text chars
loads h s = let cs = skip (chars s) in whole_text (value h (length cs) cs)

abbrev pub no_hooks : Hooks
no_hooks = record {
  parse_float = λ s. null;
  parse_constant = λ s. null;
  surrogate = λ n. "?";
  message = λ s. "";
}

loads_nested :
    loads no_hooks " {\"a\": [1, -20, \"\\u00e9\\ud83d\\ude00\\n\"], \"b\":{} , \"a\" : null}\n"
    ≡ some (obj (field "a" null (field "b" (obj end) end)))
unfolding loads
loads_nested = refl

loads_text :
    loads no_hooks "[\"\\u00e9\\ud83d\\ude00\\n\",-120, [ ] ]"
    ≡ some (arr (cons (str "é😀\n") (cons (num (negsuc 119)) (cons (arr nil) nil))))
unfolding loads
loads_text = refl

loads_trailing : loads no_hooks "[1,]" ≡ none
unfolding loads
loads_trailing = refl

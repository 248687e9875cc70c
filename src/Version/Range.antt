-- ===== src/Version/Range.antt =====
-- The version gate.
use oracle_patching.Prelude.{
  ℕ, ◌≤◌, String, ◌≡◌, refl, ap, ◌∙◌, Bool, ◌&&◌, [], ◌∷◌, map, arith, ◌==◌,
}
use oracle_patching.Prelude.Int.{pos}
use oracle_patching.Version.{
  Version, tuple_le, Parsed, parsed, value_error, parse_version, version_in_range,
}
use oracle_patching.Version.Print.{dotted, parse_version-dotted}

-- The outcome of the gate for a version, between bounds that have been read.
abbrev pub gate : Version → Version → Parsed Version → Parsed Bool
gate lo hi (value_error m) = value_error m
gate lo hi (parsed v) = parsed (tuple_le lo v && tuple_le v hi)

-- Between bounds that are versions, `_version_in_range` says whether the version lies between them,
-- both included, in the order of tuples; a text that is no version raises its own ValueError.
pub version_in_range_lem :
    (version min_v max_v : String) (lo hi : Version)
    → parse_version min_v ≡ parsed lo
    → parse_version max_v ≡ parsed hi
    → version_in_range version min_v max_v ≡ gate lo hi (parse_version version)
unfolding version_in_range
version_in_range_lem version min_v max_v lo hi p q = ground arith

-- `min_supported_version` and `max_supported_version` of the two registered procedures.
abbrev pub min_19c : String
min_19c = "19.0.0.0.0"

abbrev pub max_19c : String
max_19c = "19.99.99.99.99"

abbrev lo_19c : Version
lo_19c = map pos (19 ∷ 0 ∷ 0 ∷ 0 ∷ 0 ∷ [])

abbrev hi_19c : Version
hi_19c = map pos (19 ∷ 99 ∷ 99 ∷ 99 ∷ 99 ∷ [])

min_19c-lem : parse_version min_19c ≡ parsed lo_19c
unfolding parse_version
min_19c-lem = refl

max_19c-lem : parse_version max_19c ≡ parsed hi_19c
unfolding parse_version
max_19c-lem = refl

in_19c :
    (major a b c d : ℕ)
    → a ≤ 99
    → b ≤ 99
    → c ≤ 99
    → d ≤ 99
    → let v : Version = map pos (major ∷ a ∷ b ∷ c ∷ d ∷ []) in
      (tuple_le lo_19c v && tuple_le v hi_19c) ≡ (major == 19)
unfolding tuple_le
in_19c major a b c d ha hb hc hd = ground arith

-- The registered range "19.0.0.0.0" to "19.99.99.99.99" admits a version of five numbers, the last
-- four of them at most 99, exactly when the first is 19.
pub version_in_range-19c :
    (major a b c d : ℕ)
    → a ≤ 99
    → b ≤ 99
    → c ≤ 99
    → d ≤ 99
    → version_in_range (dotted (major ∷ a ∷ b ∷ c ∷ d ∷ [])) min_19c max_19c ≡ parsed (major == 19)
version_in_range-19c major a b c d ha hb hc hd =
    version_in_range_lem _ min_19c max_19c lo_19c hi_19c min_19c-lem max_19c-lem
    ∙ ap (gate lo_19c hi_19c) (parse_version-dotted major (a ∷ b ∷ c ∷ d ∷ []))
    ∙ ap parsed (in_19c major a b c d ha hb hc hd)

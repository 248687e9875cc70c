-- ===== src/Version/Tests.antt =====
-- A version of the 19c line.
use oracle_patching.Prelude.{◌≡◌, [], ◌∷◌, map}
use oracle_patching.Prelude.Int.{pos}
use oracle_patching.Version.{parsed, parse_version}
use oracle_patching.Version.Print.{dotted, parse_version-dotted}

parse_version-dotted_example :
    parse_version (dotted (19 ∷ 24 ∷ 0 ∷ [])) ≡ parsed (map pos (19 ∷ 24 ∷ 0 ∷ []))
parse_version-dotted_example = parse_version-dotted 19 (24 ∷ 0 ∷ [])

-- ===== src/Version/Print.antt =====
-- Versions are read back from their dotted print.
use oracle_patching.Prelude.{ℕ, String, ◌≡◌, refl, some, List, [], ◌∷◌, map}
use oracle_patching.Prelude.Int.{pos}
use oracle_patching.Text.{join}
use oracle_patching.Text.Decimal.{decimal}
use oracle_patching.Text.Laws.{py_int-decimal, split-join-decimal}
use oracle_patching.Version.{parts, version_tuple, parse_version, parsed}

-- The usual print of a version.
unfoldable pub dotted : List ℕ → String
dotted ns = join "." (map decimal ns)

parts-decimal : (ns : List ℕ) → parts (map decimal ns) ≡ some (map pos ns)
unfolding parts
parts-decimal [] = refl
parts-decimal (n ∷ ns) = rw (py_int-decimal n, parts-decimal ns)

pub version_tuple-dotted :
    (n : ℕ) (ns : List ℕ) → version_tuple (dotted (n ∷ ns)) ≡ some (map pos (n ∷ ns))
unfolding version_tuple dotted
version_tuple-dotted n ns = rw (split-join-decimal n ns, parts-decimal (n ∷ ns))

-- Any list of at least one natural number is what `_parse_version` reads from its dotted print.
pub parse_version-dotted :
    (n : ℕ) (ns : List ℕ) → parse_version (dotted (n ∷ ns)) ≡ parsed (map pos (n ∷ ns))
unfolding parse_version
parse_version-dotted n ns = rw (version_tuple-dotted n ns, parse_version)

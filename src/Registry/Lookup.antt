-- ===== src/Registry/Lookup.antt =====
-- What `registry.get` returns and refuses.
use oracle_patching.Prelude.{
  String, ◌≡◌, refl, ◌↔◌, inl, inr, Bool, true, false, not, none, some, List, [], ◌∷◌, arith,
  str_eq, eq_iff, Bool-cases, All,
}
use mathlib.Core.Path.{subst₂}
use oracle_patching.Errors.{Result, ok, raise, unknown_procedure}
use oracle_patching.Procedure.{ProcedureDefinition}
use oracle_patching.Registry.{
  Disk, YmlFile, ProcedureRegistry, find_procedure, has_key, load, get, contains,
}
use oracle_patching.Registry.Load.{IsVetted, load-IsVetted}

find_procedure-All :
    (P : String × ProcedureDefinition → Type 0) (k : String)
    (m : List (String × ProcedureDefinition)) (p : ProcedureDefinition)
    → All P m
    → find_procedure k m ≡ some p
    → P (k, p)
unfolding find_procedure
find_procedure-All P k [] p all h = cc
find_procedure-All P k ((j, q) ∷ m) p (first, rest) h = elim (Bool-cases (str_eq j k)) [
  | inl same ↦ subst₂ (λ a b. P (a, b)) ((eq_iff j k).0 same) (ground arith) first
  | inr differ ↦ find_procedure-All P k m p rest (ground arith)
]

get-find :
    (r : ProcedureRegistry) (k : String) (p : ProcedureDefinition)
    → get r k ≡ ok p
    → find_procedure k r.procedures ≡ some p
unfolding get
get-find r k p h = ground arith

-- From a registry that loaded, `get` returns only procedures that carry the id that was asked for,
-- that have their three playbooks on disk, and that require known preconditions only.
pub get-IsVetted :
    (disk : Disk) (files : List YmlFile) (registry : ProcedureRegistry) (procedure_id : String)
    (p : ProcedureDefinition)
    → load disk files ≡ ok registry
    → get registry procedure_id ≡ ok p
    → IsVetted disk (procedure_id, p)
get-IsVetted disk files registry procedure_id p loaded found =
    find_procedure-All (IsVetted disk) procedure_id registry.procedures p
      (load-IsVetted disk files registry loaded).0 (get-find registry procedure_id p found)

find_procedure-has_key :
    (k : String) (m : List (String × ProcedureDefinition))
    → (has_key k m ≡ false) ↔ (find_procedure k m ≡ none)
unfolding find_procedure has_key
find_procedure-has_key k [] = (λ h. refl, λ h. refl)
find_procedure-has_key k ((j, q) ∷ m) = ground (arith, find_procedure-has_key k m)

abbrev pub is_unknown {ℓ} : {A : Type ℓ} → Result A → Bool
is_unknown (raise (unknown_procedure m)) = true
is_unknown _ = false

abbrev pub is_ok {ℓ} : {A : Type ℓ} → Result A → Bool
is_ok (ok a) = true
is_ok (raise e) = false

-- `get` raises UnknownProcedureError for exactly the ids that are not `in` the registry, and
-- returns a procedure for exactly those that are.
pub get-contains :
    (registry : ProcedureRegistry) (procedure_id : String)
    → (is_unknown (get registry procedure_id) ≡ not (contains registry procedure_id))
      × (is_ok (get registry procedure_id) ≡ contains registry procedure_id)
unfolding get contains
get-contains registry procedure_id =
    ground (arith, find_procedure-has_key procedure_id registry.procedures)

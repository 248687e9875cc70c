-- ===== src/Procedure.antt =====
-- Patching_Agentic/registry/procedures/schema.py: one entry of the allow-list.
use oracle_patching.Prelude.{
  String, ◌<>◌, ◌≡◌, refl, ap, ◌∙◌, ◌↔◌, ◌⊎◌, inl, inr, Bool, true, false, not, ◌&&◌, ◌||◌, Option,
  List, [], ◌∷◌, arith, str_eq, eq_iff, if◌then◌else◌,
}
use oracle_patching.Prelude.Sort.{sort_by}
use oracle_patching.Text.Repr.{repr_list}
use oracle_patching.Errors.{Result, ok, raise, validation_error}

pub data TargetType : Type 0 where
  single_instance rac : TargetType

abbrev pub known_preconditions : List String
known_preconditions =
    "rman_backup_available" ∷ "archivelog_backup_available" ∷ "oracle_home_verified"
    ∷ "opatch_version_verified" ∷ "disk_space_verified" ∷ "data_guard_synchronized" ∷ []

pub record ProcedureDefinition : Type 0 where
  pub procedure_id : String
  pub description : String
  pub target_type : TargetType
  pub min_supported_version : String
  pub max_supported_version : String
  pub precheck_playbook : String
  pub apply_playbook : String
  pub rollback_info_playbook : String
  pub confirm_var_name : String
  pub required_preconditions : List String
  pub requires_grid_infra : Bool
  pub notes : Option String

-- `name in names`
unfoldable pub listed : String → List String → Bool
listed x [] = false
listed x (y ∷ ys) = str_eq x y || listed x ys

-- `set(names) - set(known)`: without repetitions.
unfoldable pub set_minus : List String → List String → List String
unfolding listed
set_minus [] known = []
set_minus (x ∷ xs) known =
    let rest = set_minus xs known in if listed x known || listed x xs then rest else x ∷ rest

abbrev unknown_message : List String → String
unknown_message unknown =
    "unknown precondition(s) "
    <> repr_list (sort_by (λ s. s) unknown)
    <> "; must be a subset of "
    <> repr_list (sort_by (λ s. s) known_preconditions)

known_or : List String → List String → Result (List String)
known_or value [] = ok value
known_or value (x ∷ xs) = raise (validation_error (unknown_message (x ∷ xs)))

-- The validator of `required_preconditions`, as pydantic runs it: its ValueError fails the model.
unfoldable pub preconditions_are_known : List String → Result (List String)
unfolding set_minus known_or
preconditions_are_known value = known_or value (set_minus value known_preconditions)

listed-set_minus :
    (x : String) (xs known : List String)
    → listed x (set_minus xs known) ≡ (listed x xs && not (listed x known))
unfolding set_minus
listed-set_minus x [] known = refl
listed-set_minus x (y ∷ ys) known = ground (arith, eq_iff x y, listed-set_minus x ys known)

known_or-nil : (value unknown : List String) → known_or value unknown ≡ ok value → unknown ≡ []
unfolding known_or
known_or-nil value [] h = refl
known_or-nil value (x ∷ xs) h = cc

nil_or_listed : (xs : List String) → (xs ≡ []) ⊎ ((x : String) × (listed x xs ≡ true))
unfolding listed
nil_or_listed [] = inl refl
nil_or_listed (x ∷ xs) = inr (x, ground (arith, eq_iff x x))

-- The validator accepts a list exactly when each of its names is a known precondition.
pub preconditions_are_known_iff :
    (value : List String)
    → (preconditions_are_known value ≡ ok value)
      ↔ ((x : String) → listed x value ≡ true → listed x known_preconditions ≡ true)
unfolding preconditions_are_known
preconditions_are_known_iff value = (
  λ h x m.
      let none_left : listed x (set_minus value known_preconditions) ≡ false =
        rw (known_or-nil value (set_minus value known_preconditions) h) (unfold listed in refl) in
      ground (arith, listed-set_minus x value known_preconditions),
  λ all. elim (nil_or_listed (set_minus value known_preconditions)) [
    | inl empty ↦ ap (known_or value) empty ∙ (unfold known_or in refl)
    | inr (x, m) ↦ absurd (ground (arith, listed-set_minus x value known_preconditions, all x))
  ],
)

-- An accepted list is returned as it is.
pub preconditions_are_known-ok :
    (value result : List String) → preconditions_are_known value ≡ ok result → result ≡ value
unfolding preconditions_are_known
preconditions_are_known-ok value result h =
    known_or-ok value (set_minus value known_preconditions) result h
  where
    known_or-ok :
        (value unknown result : List String) → known_or value unknown ≡ ok result → result ≡ value
    known_or-ok value [] result h = cc
    known_or-ok value (x ∷ xs) result h = cc

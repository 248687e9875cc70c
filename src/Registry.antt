-- ===== src/Registry.antt =====
-- Patching_Agentic/registry/procedures/registry.py: the allow-list, loaded whole or not at all.
pub mod Load
pub mod Lookup
mod Tests
use oracle_patching.Prelude.{
  ℕ, ◌+◌, ◌-◌, ◌*◌, ◌/◌, ◌<◌, String, ◌<>◌, ap, Bool, false, not, ◌||◌, Option, none, some, List,
  [], ◌∷◌, ◌++◌, map, str_eq, if◌then◌else◌, length,
}
use oracle_patching.Prelude.Sort.{sort_by}
use oracle_patching.Text.{path_join}
use oracle_patching.Text.Repr.{repr_list}
use oracle_patching.Errors.{
  Result, ok, raise, ◌>>=◌, ◌>>◌, require, value_error, file_not_found, unknown_procedure,
}
use oracle_patching.Procedure.{ProcedureDefinition, preconditions_are_known}

-- The dict of procedures, in the order of insertion.
pub record ProcedureRegistry : Type 0 where
  pub procedures : List (String × ProcedureDefinition)

-- One `*.yml` file: its stem and its text.
pub record YmlFile : Type 0 where
  pub stem : String
  pub text : String

abbrev pub file_name : YmlFile → String
file_name f = f.stem <> ".yml"

unfoldable pub find_procedure :
    String → List (String × ProcedureDefinition) → Option ProcedureDefinition
find_procedure k [] = none
find_procedure k ((j, p) ∷ m) = if str_eq j k then some p else find_procedure k m

unfoldable pub has_key : String → List (String × ProcedureDefinition) → Bool
has_key k [] = false
has_key k ((j, p) ∷ m) = str_eq j k || has_key k m

abbrev pub keys : List (String × ProcedureDefinition) → List String
keys = map (λ (k, p). k)

abbrev pub mismatch_message : String → ProcedureDefinition → String → String
mismatch_message path d stem =
    path <> ": procedure_id '" <> d.procedure_id <> "' must match filename '" <> stem <> ".yml'"

abbrev pub dangling_message : String → String → String → String → String
dangling_message path field_name rel ansible_dir =
    path <> ": " <> field_name <> " '" <> rel <> "' does not exist under " <> ansible_dir
    <> " — refusing to load a registry with a dangling procedure reference"

-- `yaml.safe_load` with pydantic's reading of the fields (`read_definition`), the test of a file's
-- presence (`is_file`), and the two directories.
pub record Disk : Type 0 where
  pub read_definition : String → Result ProcedureDefinition
  pub is_file : String → Bool
  pub procedures_dir : String
  pub ansible_dir : String

module _ (disk : Disk) where
  open disk use {read_definition, is_file, procedures_dir, ansible_dir}

  -- ProcedureDefinition.model_validate(yaml.safe_load(text)): the fields, then the validator.
  unfoldable pub model_validate : String → Result ProcedureDefinition
  model_validate text = do
    d ← read_definition text
    preconditions_are_known d.required_preconditions
    ok d

  playbook_exists : String → String → String → Result (Unit {0})
  unfolding path_join
  playbook_exists path field_name rel =
      require (is_file (path_join ansible_dir rel))
        (file_not_found (dangling_message path field_name rel ansible_dir))

  -- The checks of one definition, and its entry.
  unfoldable pub admit :
      List (String × ProcedureDefinition)
      → YmlFile
      → ProcedureDefinition
      → Result (List (String × ProcedureDefinition))
  unfolding playbook_exists
  admit procedures f d = do
    let path = path_join procedures_dir (file_name f)
    require (str_eq d.procedure_id f.stem) (value_error (mismatch_message path d f.stem))
    playbook_exists path "precheck_playbook" d.precheck_playbook
    playbook_exists path "apply_playbook" d.apply_playbook
    playbook_exists path "rollback_info_playbook" d.rollback_info_playbook
    require (not (has_key d.procedure_id procedures))
        (value_error ("duplicate procedure_id '" <> d.procedure_id <> "'"))
    ok (procedures ++ (d.procedure_id, d) ∷ [])

  -- The body of the loop, for one file and the procedures so far.
  unfoldable pub load_file :
      List (String × ProcedureDefinition) → YmlFile → Result (List (String × ProcedureDefinition))
  unfolding model_validate admit has_key
  load_file procedures f = model_validate f.text >>= admit procedures f

  unfoldable pub load_files :
      List (String × ProcedureDefinition)
      → List YmlFile
      → Result (List (String × ProcedureDefinition))
  load_files procedures [] = ok procedures
  load_files procedures (f ∷ fs) = load_file procedures f >>= λ ps. load_files ps fs

  -- ProcedureRegistry.load, over the files that `glob("*.yml")` finds.
  unfoldable pub load : List YmlFile → Result ProcedureRegistry
  unfolding load_files
  load files = do
    procedures ← load_files [] (sort_by file_name files)
    ok (record { procedures = procedures })

-- registry.get(procedure_id)
unfoldable pub get : ProcedureRegistry → String → Result ProcedureDefinition
unfolding find_procedure repr_list sort_by
get registry procedure_id = elim (find_procedure procedure_id registry.procedures) [
  | some p ↦ ok p
  | none ↦ raise (
      unknown_procedure (
        "'"
        <> procedure_id
        <> "' is not an allow-listed procedure_id. Known: "
        <> repr_list (sort_by (λ s. s) (keys registry.procedures))))
]

-- `procedure_id in registry`
unfoldable pub contains : ProcedureRegistry → String → Bool
unfolding has_key
contains registry procedure_id = has_key procedure_id registry.procedures

-- iter(registry)
unfoldable pub values : ProcedureRegistry → List ProcedureDefinition
values registry = map (λ (k, p). p) registry.procedures

-- len(registry)
unfoldable pub size : ProcedureRegistry → ℕ
size registry = length registry.procedures

-- ===== src/Registry/Load.antt =====
-- What a loaded registry guarantees of every procedure.
use oracle_patching.Prelude.{
  String, ◌≡◌, sym, ap, ◌∙◌, subst, true, false, List, [], ◌∷◌, ◌++◌, map, append-nil, append_assoc,
  arith, eq_iff, All, All-append,
}
use oracle_patching.Text.{path_join}
use oracle_patching.Errors.{Result, ok, returned-parts}
use oracle_patching.Procedure.{
  ProcedureDefinition, preconditions_are_known, preconditions_are_known-ok,
}
use mathlib.Core.List.{map-append}
use oracle_patching.Prelude.Sort.{sort_by}
use oracle_patching.Registry.{
  ProcedureRegistry, load_files, load, keys, file_name, Disk, YmlFile, load_file, admit,
  model_validate, playbook_exists, has_key,
}

-- An entry that may be run: its key is its id, its playbooks are there, and it asks only for known
-- preconditions.
pub record IsVetted (disk : Disk) (entry : String × ProcedureDefinition) : Type 0 where
  pub keyed : entry.0 ≡ entry.1.procedure_id
  pub precheck : disk.is_file (path_join disk.ansible_dir entry.1.precheck_playbook) ≡ true
  pub apply : disk.is_file (path_join disk.ansible_dir entry.1.apply_playbook) ≡ true
  pub rollback : disk.is_file (path_join disk.ansible_dir entry.1.rollback_info_playbook) ≡ true
  pub known :
      preconditions_are_known entry.1.required_preconditions ≡ ok entry.1.required_preconditions

-- The ids in the order of the files.
abbrev pub ids : List YmlFile → List String
ids = map (λ f. f.stem)

module _ (disk : Disk) where
  model_validate-ok :
      (text : String) (d : ProcedureDefinition)
      → model_validate disk text ≡ ok d
      → preconditions_are_known d.required_preconditions ≡ ok d.required_preconditions
  unfolding model_validate
  model_validate-ok text d h =
      let (d', read, rest) = returned-parts (disk.read_definition text) _ h in
      let (value, p, same) =
        returned-parts (preconditions_are_known d'.required_preconditions) _ rest in
      checked d' d value p same
    where
      checked :
          (d' d : ProcedureDefinition) (value : List String)
          → preconditions_are_known d'.required_preconditions ≡ ok value
          → ◌≡◌ {A = Result ProcedureDefinition} (ok d') (ok d)
          → preconditions_are_known d.required_preconditions ≡ ok d.required_preconditions
      checked d' d value p same =
          let e : d' ≡ d = cc in
          let q : value ≡ d'.required_preconditions =
            preconditions_are_known-ok d'.required_preconditions value p in
          subst
            (λ x. preconditions_are_known x.required_preconditions ≡ ok x.required_preconditions) e
            (p ∙ ap ok q)

  admit-ok :
      (procedures : List (String × ProcedureDefinition)) (f : YmlFile) (d : ProcedureDefinition)
      (result : List (String × ProcedureDefinition))
      → preconditions_are_known d.required_preconditions ≡ ok d.required_preconditions
      → admit disk procedures f d ≡ ok result
      → (result ≡ procedures ++ (f.stem, d) ∷ [])
        × IsVetted disk (f.stem, d)
        × (has_key f.stem procedures ≡ false)
  unfolding admit playbook_exists
  admit-ok procedures f d result k h = ground (arith, eq_iff d.procedure_id f.stem)

  -- What one round of the loop adds.
  pub load_file-ok :
      (procedures : List (String × ProcedureDefinition)) (f : YmlFile)
      (result : List (String × ProcedureDefinition))
      → load_file disk procedures f ≡ ok result
      → (d : ProcedureDefinition) × (result ≡ procedures ++ (f.stem, d) ∷ [])
        × IsVetted disk (f.stem, d)
        × (has_key f.stem procedures ≡ false)
  unfolding load_file
  load_file-ok procedures f result h =
      let (d, valid, rest) =
        returned-parts (model_validate disk f.text) (admit disk procedures f) h in
      let (added, vetted, fresh) =
        admit-ok procedures f d result (model_validate-ok f.text d valid) rest in
      (d, added, vetted, fresh)

  keys-append : (xs ys : List (String × ProcedureDefinition)) → keys (xs ++ ys) ≡ keys xs ++ keys ys
  keys-append xs ys = map-append (λ (k, p). k) xs ys

  load_files-ok :
      (procedures : List (String × ProcedureDefinition)) (fs : List YmlFile)
      (result : List (String × ProcedureDefinition))
      → All (IsVetted disk) procedures
      → load_files disk procedures fs ≡ ok result
      → All (IsVetted disk) result × (keys result ≡ keys procedures ++ ids fs)
  unfolding load_files
  load_files-ok procedures [] result vetted h =
      let e : procedures ≡ result = cc in
      (subst (All (IsVetted disk)) e vetted, rw append-nil (ap keys (sym e)))
  load_files-ok procedures (f ∷ fs) result vetted h =
      let (ps, first, rest) = returned-parts (load_file disk procedures f) _ h in
      let (d, added, ok_d, fresh) = load_file-ok procedures f ps first in
      let all : All (IsVetted disk) ps =
        subst (All (IsVetted disk)) (sym added)
          (All-append (IsVetted disk) procedures ((f.stem, d) ∷ []) vetted (ok_d, tt)) in
      let (good, named) = load_files-ok ps fs result all rest in
      (
        good,
        named
            ∙ ap (λ l. keys l ++ ids fs) added
            ∙ ap (λ l. l ++ ids fs) (keys-append procedures ((f.stem, d) ∷ []))
            ∙ append_assoc (keys procedures) (f.stem ∷ []) (ids fs),
      )

  -- A registry that loads has one entry for each file, in the order of the file names, under the
  -- stem of the file; each entry has its key for its `procedure_id`, three playbooks that exist,
  -- and known preconditions only.
  pub load-IsVetted :
      (files : List YmlFile) (registry : ProcedureRegistry)
      → load disk files ≡ ok registry
      → All (IsVetted disk) registry.procedures
        × (keys registry.procedures ≡ ids (sort_by file_name files))
  unfolding load
  load-IsVetted files registry h =
      let (ps, loaded, same) = returned-parts (load_files disk [] (sort_by file_name files)) _ h in
      let e : ps ≡ registry.procedures = cc in
      subst (λ l. All (IsVetted disk) l × (keys l ≡ ids (sort_by file_name files))) e
        (load_files-ok [] (sort_by file_name files) ps tt loaded)

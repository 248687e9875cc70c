-- ===== src/Registry/Tests.antt =====
-- The sample registry, as it is loaded from its file.
use oracle_patching.Prelude.{◌≡◌, refl, All}
use oracle_patching.Prelude.Sort.{sort_by}
use oracle_patching.Errors.{ok}
use oracle_patching.Procedure.{preconditions_are_known}
use oracle_patching.Registry.{load, load_file, get, keys, file_name}
use oracle_patching.Registry.Load.{IsVetted, ids, load-IsVetted}
use oracle_patching.Registry.Lookup.{get-IsVetted}
use oracle_patching.Samples.{sample_procedure, sample_registry, sample_disk, sample_files}

sample_loads : load sample_disk sample_files ≡ ok sample_registry
unfolding load sort_by load_file preconditions_are_known
sample_loads = refl

sample_found : get sample_registry "oracle_19c_ru_patch" ≡ ok sample_procedure
unfolding get
sample_found = refl

load-IsVetted_example :
    All (IsVetted sample_disk) sample_registry.procedures
    × (keys sample_registry.procedures ≡ ids (sort_by file_name sample_files))
load-IsVetted_example = load-IsVetted sample_disk sample_files sample_registry sample_loads

get-IsVetted_example : IsVetted sample_disk ("oracle_19c_ru_patch", sample_procedure)
get-IsVetted_example =
    get-IsVetted sample_disk sample_files sample_registry "oracle_19c_ru_patch" sample_procedure
      sample_loads sample_found

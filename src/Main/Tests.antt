-- ===== src/Main/Tests.antt =====
-- The sample run, its record, and a whole `main` whose scan, model server and terminal agree to it.
use oracle_patching.Prelude.{◌≡◌, refl, inl, none, [], ◌∷◌, str_eq, if◌then◌else◌}
use oracle_patching.Errors.{ok}
use oracle_patching.Registry.{get}
use oracle_patching.Version.{version_in_range}
use oracle_patching.World.{audit_append, Event}
use oracle_patching.Executor.Completed.{CompletedFrom}
use oracle_patching.Main.{run_and_record}
use oracle_patching.Main.Outcomes.{run_and_record-audited}
use oracle_patching.Json.{Json, str, arr, nil, cons, object}
use oracle_patching.Registry.{load, load_file}
use oracle_patching.Procedure.{preconditions_are_known}
use oracle_patching.World.{Event}
use oracle_patching.Scanner.Scan.{scan}
use oracle_patching.Store.{Tables, empty_tables, upsert_scan_result}
use oracle_patching.Main.Pipeline.{Args, Deployment, run_plan, on_scan, on_cdbs, on_registry, main}
use oracle_patching.Main.Zero.{IsPatched, main-IsPatched}
use oracle_patching.Samples.{
  sample_disk, sample_files, willing, sample_registry, sample_plan, sample_context, sample_env,
  sample_world,
}

sample_succeeds :
    (run_and_record sample_env sample_plan sample_context sample_registry "t0"
      sample_world).1.outcome
    ≡ "SUCCESS"
unfolding run_and_record audit_append get version_in_range
sample_succeeds = refl

run_and_record-audited_example :
    ((run_and_record sample_env sample_plan sample_context sample_registry "t0" sample_world).0
      ≡ ok 0)
    × CompletedFrom sample_plan sample_context sample_registry sample_world
        (run_and_record sample_env sample_plan sample_context sample_registry "t0" sample_world).2
run_and_record-audited_example =
    run_and_record-audited sample_env sample_plan sample_context sample_registry "t0" sample_world
      sample_succeeds

-- A scan of a host that holds no database.
abbrev sample_scan : Json
sample_scan = object (
    ("oracle_home", str "/u01/db") ∷ ("opatch_version", str "12.2.0.1.42") ∷ ("cdbs", arr nil) ∷ [])

abbrev sample_output : Json
sample_output =
    let result = object (("scan_result", sample_scan) ∷ []) in
    let task = object (("hosts", object (("db1", result) ∷ [])) ∷ []) in
    object (("plays", arr (cons (object (("tasks", arr (cons task nil)) ∷ [])) nil)) ∷ [])

abbrev sample_args : Args
sample_args = record {
  target = "db1";
  inventory = "hosts.yml";
  cdbs = "[]";
  oracle_os_owner = "oracle";
  category = none;
}

abbrev sample_deployment : Deployment
sample_deployment = record {
  disk = sample_disk;
  registry_files = sample_files;
  scan_playbook = "/srv/ansible/scan_playbook.yml";
  timeout_seconds = 600;
  loads = λ text. if str_eq text "[]" then inl (arr nil) else inl sample_output;
  llm = willing;
  query_points = λ category query limit. [];
  db_now = λ w. "2026-09-22T12:00:00+00:00";
}

-- A database that holds nothing.
abbrev sample_tables : Tables
sample_tables = empty_tables

sample_main : (main sample_env sample_deployment sample_args sample_world sample_tables).0 ≡ ok 0
unfolding main load on_registry on_cdbs scan on_scan upsert_scan_result run_plan audit_append get
    version_in_range load_file preconditions_are_known
sample_main = refl

main-IsPatched_example :
    IsPatched "db1"
      (main sample_env sample_deployment sample_args sample_world sample_tables).1
      (main sample_env sample_deployment sample_args sample_world sample_tables).2
main-IsPatched_example =
    main-IsPatched sample_env sample_deployment sample_args sample_world sample_tables sample_main

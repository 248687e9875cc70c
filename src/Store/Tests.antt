-- ===== src/Store/Tests.antt =====
-- A database that is scanned, patched, and patched again in vain.
use oracle_patching.Prelude.{String, none, some, List, [], ◌∷◌}
use oracle_patching.Json.{null}
use oracle_patching.Store.{ExecutionArgs, empty_tables, get_database_state}
use oracle_patching.Store.Consistency.{
  Write, scanned, executed, write_all, Answers, get_database_state-Answers,
}

abbrev execution : String → String → String → ExecutionArgs
execution procedure_id finished_at outcome = record {
  target = "db1";
  procedure_id = procedure_id;
  started_at = "t0";
  finished_at = some finished_at;
  outcome = outcome;
  audit_log_seq_range = none;
  notes = none;
}

abbrev writes : List Write
writes =
    scanned "t1" "db1" "/u01" null
    ∷ executed "t2" (execution "oracle_19c_ru_patch" "t2" "SUCCESS")
    ∷ executed "t3" (execution "oracle_19c_rac_ru_patch" "t3" "FAILED")
    ∷ scanned "t4" "db1" "/u02" null
    ∷ []

get_database_state-Answers_example :
    Answers "db1"
      (write_all writes empty_tables).history
      (get_database_state "db1" (write_all writes empty_tables))
get_database_state-Answers_example = get_database_state-Answers writes "db1"

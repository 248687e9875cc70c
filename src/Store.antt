-- ===== src/Store.antt =====
-- Patching_Agentic/rag/ingestion/operational_store.py, over the tables of
-- Patching_Agentic/rag/postgres_schema.sql: the state of each database and the history of executions.
pub mod Consistency
mod Tests
use oracle_patching.Prelude.{
  ℕ, ◌+◌, ◌-◌, ◌/◌, String, ap, not, Option, none, some, List, [], ◌∷◌, ◌++◌, str_eq, if◌then◌else◌,
}
use oracle_patching.Prelude.Dict.{Dict, lookup, has, insert}
use oracle_patching.Json.{Json}

-- A row of `database_state`; `none` is NULL.
pub record DatabaseState : Type 0 where
  pub target : String
  pub oracle_home : String
  pub last_scanned_at : Option String
  pub last_scan_result : Option Json
  pub last_patch_level : Option String
  pub last_patch_date : Option String
  pub data_guard_role : Option String
  pub data_guard_apply_lag : Option String
  pub known_issues : Option (List String)
  pub updated_at : String

-- A row of `execution_history`.
pub record ExecutionRow : Type 0 where
  pub id : ℕ
  pub target : String
  pub procedure_id : String
  pub started_at : String
  pub finished_at : Option String
  pub outcome : String
  pub audit_log_seq_range : Option String
  pub notes : Option String

-- The arguments of `record_execution`.
pub record ExecutionArgs : Type 0 where
  pub target : String
  pub procedure_id : String
  pub started_at : String
  pub finished_at : Option String
  pub outcome : String
  pub audit_log_seq_range : Option String
  pub notes : Option String

-- `states` is keyed by the primary key `target`; `serial` is the next value of the sequence of ids.
pub record Tables : Type 0 where
  pub states : Dict DatabaseState
  pub history : List ExecutionRow
  pub serial : ℕ

abbrev pub empty_tables : Tables
empty_tables = record { states = []; history = []; serial = 1 }

-- What came of a transaction.
pub data Transaction : Type 0 where
  committed : Transaction
  foreign_key_violation : String → Transaction

abbrev new_state : String → String → String → Json → DatabaseState
new_state now target oracle_home scan_result = record {
  target = target;
  oracle_home = oracle_home;
  last_scanned_at = some now;
  last_scan_result = some scan_result;
  last_patch_level = none;
  last_patch_date = none;
  data_guard_role = none;
  data_guard_apply_lag = none;
  known_issues = none;
  updated_at = now;
}

-- The row that the INSERT … ON CONFLICT leaves: the four columns of its SET, or a new row.
unfoldable pub scanned_state :
    String → String → String → Json → Option DatabaseState → DatabaseState
scanned_state now target oracle_home scan_result none = new_state now target oracle_home scan_result
scanned_state now target oracle_home scan_result (some row) = record row {
  oracle_home = oracle_home;
  last_scanned_at = some now;
  last_scan_result = some scan_result;
  updated_at = now;
}

-- `now` is `now()`, the time of the transaction.
unfoldable pub upsert_scan_result : String → String → String → Json → Tables → Tables
unfolding scanned_state lookup insert
upsert_scan_result now target oracle_home scan_result t =
    let row = scanned_state now target oracle_home scan_result (lookup target t.states) in
    record t { states = insert target row t.states }

abbrev pub execution_row : ℕ → ExecutionArgs → ExecutionRow
execution_row id a = record {
  id = id;
  target = a.target;
  procedure_id = a.procedure_id;
  started_at = a.started_at;
  finished_at = a.finished_at;
  outcome = a.outcome;
  audit_log_seq_range = a.audit_log_seq_range;
  notes = a.notes;
}

-- UPDATE … WHERE target = …
unfoldable pub patched_states :
    String → ExecutionArgs → Option DatabaseState → Dict DatabaseState → Dict DatabaseState
unfolding insert
patched_states now a none states = states
patched_states now a (some row) states =
    insert a.target
      (record row {
        last_patch_level = some a.procedure_id;
        last_patch_date = a.finished_at;
        updated_at = now;
      })
      states

-- The INSERT refers to a row of `database_state`: without one it fails, the transaction is rolled
-- back, and only the sequence has moved.
unfoldable pub record_execution : String → ExecutionArgs → Tables → Transaction × Tables
unfolding lookup has patched_states
record_execution now a t =
    if has a.target t.states
    then (
      committed,
      record {
        states =
            if str_eq a.outcome "SUCCESS"
            then patched_states now a (lookup a.target t.states) t.states
            else t.states;
        history = t.history ++ execution_row t.serial a ∷ [];
        serial = t.serial + 1;
      },
    )
    else (foreign_key_violation a.target, record t { serial = t.serial + 1 })

unfoldable pub get_database_state : String → Tables → Option DatabaseState
unfolding lookup
get_database_state target t = lookup target t.states

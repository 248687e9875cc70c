-- ===== src/Main/Pipeline.antt =====
-- The whole of `main`, from the arguments on.
use oracle_patching.Prelude.{
  ℕ, ◌+◌, String, ◌<>◌, ◌⊎◌, inl, inr, Option, none, some, List, [], ◌∷◌, map, length,
}
use oracle_patching.Prelude.Int.{pos}
use oracle_patching.Json.{Json, num, str, obj, object}
use oracle_patching.Json.Show.{show}
use oracle_patching.Errors.{
  Result, ok, raise, scan_failed, key_error, value_error, type_error, foreign_key_error,
}
use oracle_patching.Audit.{scan_event, rag_retrieval, validation_result}
use oracle_patching.Registry.{ProcedureRegistry, Disk, YmlFile, load}
use oracle_patching.Plan.{PatchPlan}
use oracle_patching.World.{World, Env, record_event, printed, audit_append}
use oracle_patching.Executor.{RunContext, failed_validation}
use oracle_patching.Scanner
use oracle_patching.Scanner.Scan.{scan}
use oracle_patching.Retrieval.{Payload, retrieve}
use oracle_patching.Agent.{Llm, Proposal, proposed, escalated, crashed, propose_plan}
use oracle_patching.Store.{
  Tables, Transaction, committed, foreign_key_violation, ExecutionArgs, upsert_scan_result,
  record_execution,
}
use oracle_patching.Main.{Execution, run_and_record}

pub record Args : Type 0 where
  pub target : String
  pub inventory : String
  pub cdbs : String
  pub oracle_os_owner : String
  pub category : Option String

-- The settings that `main` reads, and what it calls outside the program: the folder of the registry,
-- `json.loads` with the message of its JSONDecodeError, the model server, and the vector store with
-- the embedder, which answers a category, a query text and a limit. `db_now` is the time of the
-- database.
pub record Deployment : Type 0 where
  pub disk : Disk
  pub registry_files : List YmlFile
  pub scan_playbook : String
  pub timeout_seconds : ℕ
  pub loads : String → Json ⊎ String
  pub llm : Llm
  pub query_points : Option String → String → ℕ → List Payload
  pub db_now : World → String

-- What `main` leaves: its exit status or the exception that ended it, the world and the database.
abbrev pub Ended : Type 0
Ended = Result ℕ × World × Tables

abbrev shown : String → World → World
shown text w = record_event (printed text) w

-- scan_result["oracle_home"], a text in that shape; the database would refuse another value.
unfoldable pub oracle_home_of : Json → Result String
oracle_home_of (obj fs) = elim (Scanner.member "oracle_home" fs) [
  | some (str s) ↦ ok s
  | none ↦ raise (key_error "oracle_home")
  | _ ↦ raise (type_error "oracle_home")
]
oracle_home_of j = raise (type_error "oracle_home")

-- scan_result.get("opatch_version", ""), as an f-string shows it.
unfoldable pub opatch_version_of : Json → String
unfolding show
opatch_version_of (obj fs) = elim (Scanner.member "opatch_version" fs) [
  | some j ↦ show j
  | none ↦ ""
]
opatch_version_of j = ""

unfoldable pub execution_args : Execution → ExecutionArgs
execution_args e = record {
  target = e.target;
  procedure_id = e.procedure_id;
  started_at = e.started_at;
  finished_at = some e.ended_at;
  outcome = e.outcome;
  audit_log_seq_range = none;
  notes = none;
}

-- An exception of `record_execution` takes the place of what the `try` came to.
abbrev pub settled : Result ℕ → Transaction → Result ℕ
settled r committed = r
settled r (foreign_key_violation target) = raise (foreign_key_error target)

module _ (env : Env) (d : Deployment) (args : Args) where
  abbrev pub context : RunContext
  context = record {
    ansible_dir = d.disk.ansible_dir;
    inventory = args.inventory;
    target_host = args.target;
    oracle_os_owner = args.oracle_os_owner;
    subprocess_timeout_seconds = d.timeout_seconds;
  }

  -- The run of a plan, and its record in the database.
  unfoldable pub run_plan : ProcedureRegistry → String → PatchPlan → World → Tables → Ended
  unfolding run_and_record record_execution execution_args
  run_plan registry started_at plan w t =
      let (r, e, after) = run_and_record env plan context registry started_at w in
      let (transaction, t') = record_execution (d.db_now after) (execution_args e) t in
      (settled r transaction, after, t')

  unfoldable pub on_proposal : ProcedureRegistry → String → Proposal → World → Tables → Ended
  unfolding run_plan audit_append failed_validation
  on_proposal registry started_at (proposed plan) w t = run_plan registry started_at plan w t
  on_proposal registry started_at (escalated m) w t =
      let (e, after) = audit_append env validation_result (failed_validation "patch_agent" m) w in
      (
        ok 1,
        shown ("Patch Agent could not produce a valid plan — escalating to human review: " <> m)
            after,
        t,
      )
  on_proposal registry started_at (crashed e) w t = (raise e, w, t)

  abbrev pub query_text : String → Json → String
  query_text home scan_result =
      "patch " <> home <> " current opatch " <> opatch_version_of scan_result

  -- From the hits on.
  unfoldable pub on_hits :
      ProcedureRegistry → String → Json → String → Option (List Payload) → World → Tables → Ended
  unfolding on_proposal propose_plan audit_append
  on_hits registry started_at scan_result query none w t = (raise (value_error query), w, t)
  on_hits registry started_at scan_result query (some payloads) w t =
      let (e, after) =
        audit_append env rag_retrieval
          (object (("query", str query) ∷ ("hit_count", num (pos (length payloads))) ∷ [])) w in
      on_proposal registry started_at
        (propose_plan d.llm registry scan_result (map (λ p. p.body) payloads)).0 after t

  -- From the Oracle home on: the scan is stored, and the knowledge base is asked.
  unfoldable pub on_oracle_home :
      ProcedureRegistry → String → Json → Result String → World → Tables → Ended
  unfolding on_hits retrieve upsert_scan_result opatch_version_of
  on_oracle_home registry started_at scan_result (raise e) w t = (raise e, w, t)
  on_oracle_home registry started_at scan_result (ok home) w t =
      on_hits registry started_at scan_result (query_text home scan_result)
        (retrieve (d.query_points args.category (query_text home scan_result)) none 5) w
        (upsert_scan_result (d.db_now w) args.target home scan_result t)

  -- From the outcome of the scan on.
  unfoldable pub on_scan : ProcedureRegistry → String → Result Json → World → Tables → Ended
  unfolding on_oracle_home oracle_home_of audit_append
  on_scan registry started_at (ok scan_result) w t =
      let (e, after) = audit_append env scan_event scan_result w in
      on_oracle_home registry started_at scan_result (oracle_home_of scan_result) after t
  on_scan registry started_at (raise (scan_failed m)) w t =
      (ok 1, shown ("Scan failed: " <> m) w, t)
  on_scan registry started_at (raise e) w t = (raise e, w, t)

  -- From the reading of `--cdbs` on.
  unfoldable pub on_cdbs : ProcedureRegistry → String → Json ⊎ String → World → Tables → Ended
  unfolding on_scan scan
  on_cdbs registry started_at (inr m) w t = (ok 2, shown ("--cdbs must be valid JSON: " <> m) w, t)
  on_cdbs registry started_at (inl cdbs) w t =
      let (r, after) =
        scan d.loads env d.scan_playbook d.disk.ansible_dir args.inventory args.target cdbs
          d.timeout_seconds w in
      on_scan registry started_at r after t

  unfoldable pub on_registry : String → Result ProcedureRegistry → World → Tables → Ended
  unfolding on_cdbs
  on_registry started_at (raise e) w t = (raise e, w, t)
  on_registry started_at (ok registry) w t = on_cdbs registry started_at (d.loads args.cdbs) w t

  unfoldable pub main : World → Tables → Ended
  unfolding on_registry load
  main w t =
      on_registry (env.isoformat w.readings) (load d.disk d.registry_files)
        (record w { readings = w.readings + 1 }) t

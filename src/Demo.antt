-- ===== src/Demo.antt =====
-- Patching_Agentic/demo.py: `main`, which walks through the parts and prints what they answer. What is
-- printed is an event; the copy of it in the transcript's file is not modelled.
pub mod Lines
pub mod Steps
pub mod Walk
pub mod Adds
pub mod Extends
pub mod Gate
mod Tests
use oracle_patching.Prelude.{
  ℕ, suc, ◌-◌, ◌/◌, ◌<◌, String, ◌<>◌, ap, ◌⊎◌, inl, inr, Bool, not, Option, none, some, List,
  if◌then◌else◌,
}
use oracle_patching.Prelude.Dict.{Dict}
use oracle_patching.Prelude.Int.{ℤ}
use oracle_patching.Errors.{
  Exc, Result, ok, raise, executor_halted, scan_failed, unknown_procedure, type_error, value_error,
  os_error, timeout_expired, str_exc,
}
use oracle_patching.Text.{is_empty}
use oracle_patching.Text.Decimal.{decimal}
use oracle_patching.Text.Repr.{repr_list}
use oracle_patching.Json.{Json, Fields, str, arr, object, items}
use oracle_patching.Json.Show.{show}
use oracle_patching.Json.Indent.{dumps_indented}
use oracle_patching.Json.Scan.{Hooks}
use oracle_patching.Audit.{Verdict}
use oracle_patching.Audit.File.{log_text}
use oracle_patching.Audit.Read.{Loaded, read_all, verify_file}
use oracle_patching.Audit.Tamper.{tampering}
use oracle_patching.Procedure.{ProcedureDefinition}
use oracle_patching.Registry
use oracle_patching.Registry.{ProcedureRegistry, Disk, YmlFile}
use oracle_patching.Plan.{PatchPlan, plan_json}
use oracle_patching.World.{
  World, Env, M, Command, Outcome, completed, timed_out, unavailable, ◌>>=◌, ◌>>◌, continue, pure,
  throw, lift, print, run_process, input, now_iso,
}
use oracle_patching.Executor.{RunContext, run_patch_workflow}
use oracle_patching.Item.{item}
use oracle_patching.Scanner.Scan.{scan}
use oracle_patching.Dmz.{Storage, TransferManifest, transfer}
use oracle_patching.Ingest.{KnowledgeObject, QdrantClient, Embedder, load_knowledge_objects, ingest}
use oracle_patching.Retrieval.{Payload, retrieve}
use oracle_patching.Agent.{Llm, Proposal, proposed, escalated, crashed, propose_plan}
use oracle_patching.Preflight.{Targets, Services, banner, rule, run_preflight}
use oracle_patching.Demo.Lines.{
  print_all, print_scan, file_line, print_hits, print_entries, last_three, verdict_text, tests_line,
}

pub record DemoArgs : Type 0 where
  pub auto : Bool
  pub real_embeddings : Bool
  pub target : String
  pub inventory : String
  pub cdb_sid : String
  pub oracle_os_owner : String

-- The settings, the folders, and what `main` calls outside the program. `loads` is the `json.loads` of
-- the scan with the message of its error, `transcript` the path of the transcript, and `query` what
-- the server of the vector store answers to a collection, a text and a limit, with the embedder.
pub record DemoDeployment (Bytes Vector Server : Type 0) : Type 0 where
  pub targets : Targets
  pub services : Services
  pub disk : Disk
  pub registry_files : List YmlFile
  pub scan_playbook : String
  pub timeout_seconds : ℕ
  pub loads : String → Json ⊎ String
  pub storage : Storage Bytes
  pub staging_dir : String
  pub staging : Dict Bytes
  pub read_object : Bytes → Result KnowledgeObject
  pub client : QdrantClient Vector Server
  pub uuid5 : String → String
  pub embedder : Bool → Embedder Vector
  pub query : Bool → Server → String → String → ℕ → List Payload
  pub llm : Llm
  pub model : String
  pub hooks : Hooks
  pub audit_log_path : String
  pub python : String
  pub scaffold_root : String
  pub transcript : World → String

-- The inbox, the log of the transfers, and the server of the vector store.
pub record Stores (Bytes Server : Type 0) : Type 0 where
  pub inbox : Dict Bytes
  pub transfer_log : String
  pub server : Server

abbrev pub demo_collection : String
demo_collection = "oracle_procedures_demo"

abbrev pub bogus_id : String
bogus_id = "procedure_the_llm_made_up"

-- What `except ExecutorHaltedError` makes of a run: the reason, if it was halted.
abbrev pub halted_reason : Result (Unit {0}) → Result (Option String)
halted_reason (ok u) = ok none
halted_reason (raise (executor_halted m)) = ok (some m)
halted_reason (raise e) = raise e

abbrev pub caught : M (Unit {0}) → M (Option String)
caught m w = let (r, after) = m w in (halted_reason r, after)

-- What `except ScanFailedError` makes of a scan: the message, if it failed.
abbrev pub scanned : Result Json → Result (Json ⊎ String)
scanned (ok scan_result) = ok (inl scan_result)
scanned (raise (scan_failed m)) = ok (inr m)
scanned (raise e) = raise e

abbrev pub caught_scan : M Json → M (Json ⊎ String)
caught_scan m w = let (r, after) = m w in (scanned r, after)

-- The text of the audit file.
abbrev pub audit_text : M String
audit_text w = (ok (log_text w.log), w)

-- What main leaves: its exit status or the exception that ended it, the world and the stores.
abbrev pub DemoEnded : Type 0 → Type 0 → Type 0
DemoEnded Bytes Server = Result ℕ × World × Stores Bytes Server

module _ {Bytes Server : Type 0} where
  abbrev pub proceed :
      {A : Type 0}
      → Result A
      → (A → World → Stores Bytes Server → DemoEnded Bytes Server)
      → World
      → Stores Bytes Server
      → DemoEnded Bytes Server
  proceed (ok a) next w s = next a w s
  proceed (raise e) next w s = (raise e, w, s)

  -- The next step, after a part that leaves the stores alone.
  abbrev pub and_then :
      {A : Type 0}
      → M A
      → (A → World → Stores Bytes Server → DemoEnded Bytes Server)
      → World
      → Stores Bytes Server
      → DemoEnded Bytes Server
  and_then m next w s = let (r, after) = m w in proceed r next after s

  abbrev pub finish : M ℕ → World → Stores Bytes Server → DemoEnded Bytes Server
  finish m w s = let (r, after) = m w in (r, after, s)

module _ (env : Env) (args : DemoArgs) where
  unfoldable pub pause : M (Unit {0})
  unfolding input
  pause = if args.auto then pure tt else (input env "\n  [Enter to continue] " >> pure tt)

  unfoldable pub bogus_answer : Result ProcedureDefinition → M (Unit {0})
  unfolding str_exc
  bogus_answer (ok p) = print "  (unexpected: this should have been rejected)"
  bogus_answer (raise e) = print ("  REJECTED: " <> str_exc e)

  -- What the registry says of an id that no procedure has.
  unfoldable pub reject_bogus : ProcedureRegistry → M (Unit {0})
  unfolding Registry.get bogus_answer
  reject_bogus registry = bogus_answer (Registry.get registry bogus_id)

  abbrev pub report_run : Option String → M (Unit {0})
  report_run none =
      print
        "Patch applied successfully (unexpected in this environment — verify before trusting this)."
  report_run (some m) = print ("Executor halted: " <> m)

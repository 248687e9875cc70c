-- ===== src/Demo/Steps.antt =====
-- Patching_Agentic/demo.py: the steps of `main` from the retrieval on, which leave the inbox and the
-- vector store alone.
use oracle_patching.Prelude.{
  ℕ, String, ◌<>◌, false, Option, none, some, List, [], ◌∷◌, map, if◌then◌else◌, length,
}
use oracle_patching.Errors.{Result, ok, raise, value_error, os_error, timeout_expired}
use oracle_patching.Text.{is_empty}
use oracle_patching.Text.Decimal.{decimal}
use oracle_patching.Text.Repr.{repr_list}
use oracle_patching.Json.{Json}
use oracle_patching.Json.Show.{show}
use oracle_patching.Json.Indent.{dumps_indented}
use oracle_patching.Audit.{Verdict}
use oracle_patching.Audit.Read.{read_all, verify_file}
use oracle_patching.Audit.Tamper.{tampering}
use oracle_patching.Registry.{ProcedureRegistry}
use oracle_patching.Plan.{PatchPlan, plan_json}
use oracle_patching.World.{
  Env, M, Command, Outcome, completed, timed_out, unavailable, ◌>>=◌, ◌>>◌, pure, throw, lift,
  print, run_process,
}
use oracle_patching.Executor.{RunContext, run_patch_workflow}
use oracle_patching.Item.{item}
use oracle_patching.Dmz.{TransferManifest}
use oracle_patching.Ingest.{KnowledgeObject}
use oracle_patching.Retrieval.{Payload, retrieve}
use oracle_patching.Agent.{Proposal, proposed, escalated, crashed, propose_plan}
use oracle_patching.Preflight.{banner, rule}
use oracle_patching.Demo.Lines.{
  print_all, print_hits, print_entries, last_three, verdict_text, tests_line,
}
use oracle_patching.Demo.{
  DemoArgs, DemoDeployment, demo_collection, bogus_id, caught, audit_text, pause, reject_bogus,
  report_run,
}

module _ {Bytes Vector Server : Type 0} (env : Env) (d : DemoDeployment Bytes Vector Server)
    (args : DemoArgs) where
  abbrev pub demo_context : RunContext
  demo_context = record {
    ansible_dir = d.disk.ansible_dir;
    inventory = args.inventory;
    target_host = args.target;
    oracle_os_owner = args.oracle_os_owner;
    subprocess_timeout_seconds = d.timeout_seconds;
  }

  abbrev pub tests_command : Command
  tests_command = record {
    argv = d.python ∷ "-m" ∷ "pytest" ∷ "tests/" ∷ "-q" ∷ [];
    cwd = d.scaffold_root;
    extra_env = [];
    timeout = d.timeout_seconds;
  }

  -- What the process of the tests printed.
  abbrev pub tests_output : Outcome → Result String
  tests_output (completed rc out err) = ok out
  tests_output (timed_out out) = raise (
      timeout_expired (
        "Command '"
        <> repr_list tests_command.argv
        <> "' timed out after "
        <> decimal d.timeout_seconds
        <> " seconds"))
  tests_output (unavailable m) = raise (os_error m)

  -- The end of the summary.
  abbrev pub summary : TransferManifest → Option String → String → String → List String
  unfolding tests_line
  summary manifest reason output path =
      ""
      ∷ rule
      ∷ " Done. Summary of what this run actually proved, live:"
      ∷ rule
      ∷ ("  - Scanner read real state from '" <> args.target <> "'")
      ∷ ("  - DMZ transfer simulation moved "
          <> decimal (length manifest.files)
          <> " file(s) staging -> inbox")
      ∷ "  - RAG ingestion/retrieval worked against real Qdrant, reading only from the inbox"
      ∷ "  - Patch Agent got a schema-valid, registry-constrained plan from a real local LLM"
      ∷ "  - Registry rejected an off-allow-list id before touching Ansible"
      ∷ ("  - Executor halted safely: " <> elim reason [
        | none ↦ "(see above)"
        | some m ↦ if is_empty m then "(see above)" else m
      ])
      ∷ "  - Audit chain verified, and tamper detection confirmed on a scratch copy"
      ∷ ("  - Unit test suite: " <> tests_line "see above" output)
      ∷ ("\nFull transcript: " <> path)
      ∷ []

  -- Step 8, and the summary.
  unfoldable pub test_suite : TransferManifest → Option String → String → M ℕ
  unfolding run_process tests_line print_all
  test_suite manifest reason path = do
    _ ← banner 8 "Test suite (the part of this that isn't a live demo)"
    outcome ← run_process env tests_command
    output ← lift (tests_output outcome)
    _ ← print (tests_line "(no output)" output)
    _ ← print_all (summary manifest reason output path)
    pure 0

  abbrev pub report_copy : Option Verdict → M (Unit {0})
  report_copy none = pure tt
  report_copy (some v) = print ("verify_chain() on the tampered copy: " <> verdict_text v)

  -- Step 7.
  unfoldable pub audit_trail : M (Unit {0})
  unfolding read_all verify_file tampering print_entries last_three pause
  audit_trail = do
    _ ← banner 7 "Audit trail — hash-chained, tamper-evident"
    text ← audit_text
    entries ← lift (read_all d.hooks text)
    _ ← print (decimal (length entries) <> " total entries in " <> d.audit_log_path <> ". Last 3:")
    _ ← print_entries (last_three entries)
    verdict ← lift (verify_file env.sha256_hex d.hooks text)
    _ ← print ("\nverify_chain() on the real log: " <> verdict_text verdict)
    _ ← print "\nNow tampering with a SCRATCH COPY (never the real log) to show detection:"
    copy ← lift (tampering env.sha256_hex d.hooks text)
    _ ← report_copy copy
    pause env args

  -- Step 6.
  unfoldable pub executor_run : ProcedureRegistry → PatchPlan → M (Option String)
  unfolding run_patch_workflow pause print_all
  executor_run registry plan = do
    _ ← banner 6 "Executor run — fails safe (no real patch is staged yet)"
    _ ← print_all (
        "No real CPU/RU patch has been downloaded yet (see STATUS.md), so this"
        ∷ "WILL halt before applying anything. That's the point of this step: watch"
        ∷ "it stop cleanly, explain why, and write an audit entry either way." ∷ [])
    reason ← caught (run_patch_workflow env plan demo_context registry)
    _ ← report_run env args reason
    _ ← pause env args
    pure reason

  -- Step 5.
  unfoldable pub allow_list_gate : ProcedureRegistry → M (Unit {0})
  unfolding reject_bogus pause print_all
  allow_list_gate registry = do
    _ ← banner 5 "Registry allow-list gate — what happens to an id NOT on the list"
    _ ← print_all (
        ("Directly asking the registry for '" <> bogus_id <> "' (simulating what the Executor")
        ∷ "does with ANY proposed procedure_id, real or hallucinated, before it will"
        ∷ "touch a single Ansible playbook):"
        ∷ [])
    _ ← reject_bogus env args registry
    pause env args

  -- What follows the proposal. The plan is printed in the order of the schema.
  unfoldable pub after_proposal : String → TransferManifest → ProcedureRegistry → Proposal → M ℕ
  unfolding dumps_indented plan_json print_all pause allow_list_gate executor_run audit_trail
      test_suite
  after_proposal path manifest registry (proposed plan) = do
    _ ← print_all (
        "Proposed plan (schema-validated, procedure_id constrained to the live registry's allow-list):"
        ∷ dumps_indented false 0 (plan_json plan)
        ∷ [])
    _ ← pause env args
    _ ← allow_list_gate registry
    reason ← executor_run registry plan
    _ ← audit_trail
    test_suite manifest reason path
  after_proposal path manifest registry (escalated m) =
      print ("Patch Agent escalated to human review instead of guessing: " <> m) >> pure 1
  after_proposal path manifest registry (crashed e) = throw e

  -- Step 4, from the hits on.
  unfoldable pub proposing :
      String → TransferManifest → ProcedureRegistry → Json → Option (List Payload) → M ℕ
  unfolding print_hits pause propose_plan after_proposal
  proposing path manifest registry scan_result none = throw (value_error "19.28.0.0.0")
  proposing path manifest registry scan_result (some hits) = do
    _ ← print ("Retrieved " <> decimal (length hits) <> " applicable knowledge object(s):")
    _ ← print_hits hits
    _ ← pause env args
    _ ← banner 4 "Patch Agent proposal (real local LLM call, schema-gated)"
    _ ← print (
        "Calling "
        <> d.llm.base_url
        <> " (model: "
        <> d.model
        <> ", timeout "
        <> decimal d.llm.timeout_seconds
        <> "s)...")
    after_proposal path manifest registry
        (propose_plan d.llm registry scan_result (map (λ p. p.body) hits)).0

  -- The retrieval of step 3.
  unfoldable pub retrieving :
      String → TransferManifest → ProcedureRegistry → Json → List KnowledgeObject → Server → M ℕ
  unfolding retrieve proposing item show
  retrieving path manifest registry scan_result objects server = do
    _ ← print (
        "Ingested "
        <> decimal (length objects)
        <> " structured knowledge object(s) into '"
        <> demo_collection
        <> "' — read only from knowledge_inbox/, never knowledge_staging/ directly.")
    home ← lift (item "oracle_home" scan_result)
    proposing path manifest registry scan_result (
        retrieve (d.query args.real_embeddings server demo_collection ("patch " <> show home))
          (some "19.28.0.0.0") 5)

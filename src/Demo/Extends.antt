-- ===== src/Demo/Extends.antt =====
-- The demonstration only adds to the audit log, and keeps its chain, however it ends.
use oracle_patching.Prelude.{ℕ, String, ◌⊎◌, inl, inr, Bool, true, false, Option, none, some, List}
use oracle_patching.Errors.{Result, ok, raise}
use oracle_patching.Json.{Json}
use oracle_patching.Audit.{Verdict}
use oracle_patching.Registry
use oracle_patching.Procedure.{ProcedureDefinition}
use oracle_patching.Registry.{ProcedureRegistry}
use oracle_patching.Plan.{PatchPlan}
use oracle_patching.World.{World, Env, M}
use oracle_patching.World.Extends.{Extends, Extends-refl, Extends-trans, Adds}
use oracle_patching.Executor.Logs.{run_patch_workflow-Adds}
use oracle_patching.Dmz.{TransferManifest, transfer}
use oracle_patching.Prelude.Dict.{Dict}
use oracle_patching.Ingest.{KnowledgeObject, ingest}
use oracle_patching.Retrieval.{Payload}
use oracle_patching.Agent.{Proposal, proposed, escalated, crashed}
use oracle_patching.Demo.{
  bogus_id, bogus_answer, demo_collection, DemoArgs, DemoDeployment, Stores, DemoEnded, proceed,
  and_then, finish, pause, reject_bogus, report_run,
}
use oracle_patching.Demo.Steps.{
  report_copy, test_suite, audit_trail, executor_run, allow_list_gate, after_proposal, proposing,
  retrieving,
}
use oracle_patching.Demo.Walk.{
  report_failed_scan, transferred, ingesting, report_transfer, transferring, report_scan,
  after_scan, scanning, loading, ready, opening, demo_main,
}
use oracle_patching.Demo.Adds.{
  parts, print_all-Adds, print_scan-Adds, print_hits-Adds, print_entries-Adds, banner-Adds,
  scan-Adds, run_preflight-Adds,
}

module _ {Bytes Vector Server : Type 0} (env : Env) (d : DemoDeployment Bytes Vector Server)
    (args : DemoArgs) where
  -- A part of `main` that extends every world that it is run in.
  record Grows (f : World → Stores Bytes Server → DemoEnded Bytes Server) : Type 0 where
    at : (w : World) (s : Stores Bytes Server) → Extends env.sha256_hex w (f w s).1

  finish-Grows : (m : M ℕ) → Adds env m → Grows (finish m)
  finish-Grows m p = record { at = λ w s. p.at w }

  and_then-result :
      {A : Type 0} (r : Result A) (next : A → World → Stores Bytes Server → DemoEnded Bytes Server)
      (w : World) (s : Stores Bytes Server)
      → ((a : A) → Grows (next a))
      → Extends env.sha256_hex w (proceed r next w s).1
  and_then-result (ok a) next w s h = (h a).at w s
  and_then-result (raise e) next w s h = Extends-refl env.sha256_hex w

  and_then-Grows :
      {A : Type 0} (m : M A) (next : A → World → Stores Bytes Server → DemoEnded Bytes Server)
      → Adds env m
      → ((a : A) → Grows (next a))
      → Grows (and_then m next)
  and_then-Grows m next p h = record {
    at = λ w s.
        Extends-trans env.sha256_hex w (m w).1 _ (p.at w)
          (and_then-result (m w).0 next (m w).1 s h);
  }

  pause-Adds : Adds env (pause env args)
  unfolding pause
  pause-Adds = search (parts)

  bogus_answer-Adds : (r : Result ProcedureDefinition) → Adds env (bogus_answer env args r)
  unfolding bogus_answer
  bogus_answer-Adds (ok p) = search parts
  bogus_answer-Adds (raise e) = search parts

  reject_bogus-Adds : (registry : ProcedureRegistry) → Adds env (reject_bogus env args registry)
  unfolding reject_bogus
  reject_bogus-Adds registry = bogus_answer-Adds (Registry.get registry bogus_id)

  report_run-Adds : (reason : Option String) → Adds env (report_run env args reason)
  report_run-Adds none = search (parts)
  report_run-Adds (some m) = search (parts)

  report_copy-Adds : (copy : Option Verdict) → Adds env (report_copy env d args copy)
  report_copy-Adds none = search (parts)
  report_copy-Adds (some v) = search (parts)

  test_suite-Adds :
      (manifest : TransferManifest) (reason : Option String) (path : String)
      → Adds env (test_suite env d args manifest reason path)
  unfolding test_suite
  test_suite-Adds manifest reason path = search (parts, banner-Adds, print_all-Adds) depth 10

  audit_trail-Adds : Adds env (audit_trail env d args)
  unfolding audit_trail
  audit_trail-Adds =
      search (parts, banner-Adds, print_entries-Adds, report_copy-Adds, pause-Adds) depth 16

  executor_run-Adds :
      (registry : ProcedureRegistry) (plan : PatchPlan)
      → Adds env (executor_run env d args registry plan)
  unfolding executor_run
  executor_run-Adds registry plan =
      search
        (parts, banner-Adds, print_all-Adds, run_patch_workflow-Adds, report_run-Adds, pause-Adds)
        depth 12

  allow_list_gate-Adds :
      (registry : ProcedureRegistry) → Adds env (allow_list_gate env d args registry)
  unfolding allow_list_gate
  allow_list_gate-Adds registry =
      search (parts, banner-Adds, print_all-Adds, reject_bogus-Adds, pause-Adds) depth 10

  module _ (path : String) where
    after_proposal-Adds :
        (manifest : TransferManifest) (registry : ProcedureRegistry) (p : Proposal)
        → Adds env (after_proposal env d args path manifest registry p)
    unfolding after_proposal
    after_proposal-Adds manifest registry (proposed plan) =
        search
          (
            parts, print_all-Adds, pause-Adds, allow_list_gate-Adds, executor_run-Adds,
            audit_trail-Adds, test_suite-Adds,
          )
          depth 12
    after_proposal-Adds manifest registry (escalated m) = search parts
    after_proposal-Adds manifest registry (crashed e) = search parts

    proposing-Adds :
        (manifest : TransferManifest) (registry : ProcedureRegistry) (scan_result : Json)
        (hits : Option (List Payload))
        → Adds env (proposing env d args path manifest registry scan_result hits)
    unfolding proposing
    proposing-Adds manifest registry scan_result none = search parts
    proposing-Adds manifest registry scan_result (some hits) =
        search (parts, print_hits-Adds, pause-Adds, banner-Adds, after_proposal-Adds) depth 12

    retrieving-Adds :
        (manifest : TransferManifest) (registry : ProcedureRegistry) (scan_result : Json)
        (objects : List KnowledgeObject) (server : Server)
        → Adds env (retrieving env d args path manifest registry scan_result objects server)
    unfolding retrieving
    retrieving-Adds manifest registry scan_result objects server =
        search (parts, proposing-Adds) depth 10

    ingesting-Grows :
        (manifest : TransferManifest) (registry : ProcedureRegistry) (scan_result : Json)
        (objects : List KnowledgeObject)
        → Grows (ingesting env d args path manifest registry scan_result objects)
    unfolding ingesting
    ingesting-Grows manifest registry scan_result objects = record {
      at = λ w s.
          let (count, server) =
            ingest d.client d.uuid5 demo_collection (d.embedder args.real_embeddings) objects
              s.server in
          and_then-result count _ w (record s { server = server })
            λ _. finish-Grows _ (retrieving-Adds manifest registry scan_result objects server);
    }

    report_transfer-Adds :
        (manifest : TransferManifest) (inbox : Dict Bytes)
        → Adds env (report_transfer env d args manifest inbox)
    unfolding report_transfer
    report_transfer-Adds manifest inbox =
        search (parts, print_all-Adds, pause-Adds, banner-Adds) depth 12

    transferred-Grows :
        (registry : ProcedureRegistry) (scan_result : Json)
        (left : TransferManifest × Dict Bytes × String)
        → Grows (transferred env d args path registry scan_result left)
    unfolding transferred
    transferred-Grows registry scan_result (manifest, inbox, log) = record {
      at = λ w s.
          (and_then-Grows (report_transfer env d args manifest inbox)
              (ingesting env d args path manifest registry scan_result)
              (report_transfer-Adds manifest inbox)
              (ingesting-Grows manifest registry scan_result)).at
            w (record { inbox = inbox; transfer_log = log; server = s.server });
    }

    transferring-Grows :
        (registry : ProcedureRegistry) (scan_result : Json) (now : String)
        → Grows (transferring env d args path registry scan_result now)
    unfolding transferring
    transferring-Grows registry scan_result now = record {
      at = λ w s.
          (transferred-Grows registry scan_result
              (transfer d.storage now d.staging_dir d.staging s.inbox s.transfer_log)).at
            w s;
    }

    report_scan-Adds : (scan_result : Json) → Adds env (report_scan env d args scan_result)
    unfolding report_scan
    report_scan-Adds scan_result =
        search (parts, print_scan-Adds, print_all-Adds, pause-Adds, banner-Adds) depth 12

    report_failed_scan-Adds : (m : String) → Adds env (report_failed_scan env d args m)
    unfolding report_failed_scan
    report_failed_scan-Adds m = search (parts, print_all-Adds)

    after_scan-Grows :
        (registry : ProcedureRegistry) (r : Json ⊎ String)
        → Grows (after_scan env d args path registry r)
    unfolding after_scan
    after_scan-Grows registry (inl scan_result) =
        and_then-Grows (report_scan env d args scan_result) _ (report_scan-Adds scan_result)
          (transferring-Grows registry scan_result)
    after_scan-Grows registry (inr m) =
        finish-Grows (report_failed_scan env d args m) (report_failed_scan-Adds m)

    scanning-Adds : (registry : ProcedureRegistry) → Adds env (scanning env d args registry)
    unfolding scanning
    scanning-Adds registry = search (parts, banner-Adds, scan-Adds) depth 10

    loading-Adds : Adds env (loading env d args)
    unfolding loading
    loading-Adds = search (parts, pause-Adds)

    ready-Grows : (b : Bool) → Grows (ready env d args path b)
    unfolding ready
    ready-Grows true = and_then-Grows (loading env d args) _ loading-Adds (λ registry.
        and_then-Grows (scanning env d args registry) _ (scanning-Adds registry)
          (after_scan-Grows registry))
    ready-Grows false = finish-Grows _ (search parts)

    opening-Adds : Adds env (opening env d args path)
    unfolding opening
    opening-Adds = search (parts, print_all-Adds, run_preflight-Adds)

  -- However the demonstration ends, it has added to the audit log exactly the entries that it logged,
  -- in their order: its copy of the log is the only one that it rewrites. If `verify_chain` accepted
  -- the log before, it accepts it afterwards.
  pub demo_main-Extends :
      (w : World) (s : Stores Bytes Server) → Extends env.sha256_hex w (demo_main env d args w s).1
  unfolding demo_main
  demo_main-Extends w s =
      (and_then-Grows (opening env d args (d.transcript w)) _ (opening-Adds (d.transcript w))
          (ready-Grows (d.transcript w))).at
        w s

-- ===== src/Demo/Walk.antt =====
-- Patching_Agentic/demo.py: `main` up to the ingestion.
use oracle_patching.Prelude.{
  ℕ, String, ◌<>◌, ◌⊎◌, inl, inr, Bool, true, false, List, [], ◌∷◌, map, if◌then◌else◌, length,
}
use oracle_patching.Prelude.Dict.{Dict}
use oracle_patching.Text.Decimal.{decimal}
use oracle_patching.Json.{Json, str, arr, object, items}
use oracle_patching.Registry
use oracle_patching.Registry.{ProcedureRegistry, Disk, YmlFile}
use oracle_patching.World.{World, Env, M, ◌>>=◌, ◌>>◌, pure, lift, print, now_iso}
use oracle_patching.Scanner.Scan.{scan}
use oracle_patching.Dmz.{TransferManifest, transfer}
use oracle_patching.Ingest.{KnowledgeObject, load_knowledge_objects, ingest}
use oracle_patching.Preflight.{banner, run_preflight}
use oracle_patching.Demo.Lines.{print_all, print_scan, file_line}
use oracle_patching.Demo.{
  DemoArgs, DemoDeployment, Stores, demo_collection, caught_scan, DemoEnded, proceed, and_then,
  finish, pause,
}
use oracle_patching.Demo.Steps.{retrieving}

module _ {Bytes Vector Server : Type 0} (env : Env) (d : DemoDeployment Bytes Vector Server)
    (args : DemoArgs) where
  -- The ingestion of step 3.
  unfoldable pub ingesting :
      String
      → TransferManifest
      → ProcedureRegistry
      → Json
      → List KnowledgeObject
      → World
      → Stores Bytes Server
      → DemoEnded Bytes Server
  unfolding ingest retrieving
  ingesting path manifest registry scan_result objects w s =
      let (count, server) =
        ingest d.client d.uuid5 demo_collection (d.embedder args.real_embeddings) objects
          s.server in
      proceed count
        (λ _. finish (retrieving env d args path manifest registry scan_result objects server)) w
        (record s { server = server })

  abbrev pub embedder_note : List String
  embedder_note =
      if args.real_embeddings
      then []
      else "(Using the deterministic placeholder embedder — proves the Qdrant"
        ∷ " ingestion/retrieval mechanics for real, not retrieval QUALITY."
        ∷ " Production uses a real sentence-transformers model, pre-cached"
        ∷ " for the air-gapped box. Pass --real-embeddings to use one here.)" ∷ []

  -- The end of step 2 and the start of step 3.
  unfoldable pub report_transfer : TransferManifest → Dict Bytes → M (List KnowledgeObject)
  unfolding print_all pause load_knowledge_objects
  report_transfer manifest inbox = do
    _ ← print (
        "\nTransferred "
        <> decimal (length manifest.files)
        <> " file(s) at "
        <> manifest.transferred_at
        <> ":")
    _ ← print_all (map file_line manifest.files)
    _ ← pause env args
    _ ← banner 3 "RAG ingestion + retrieval (real Qdrant, from the inbox only)"
    _ ← print_all embedder_note
    lift (load_knowledge_objects d.read_object inbox)

  -- After the transfer, with what it returned and left.
  unfoldable pub transferred :
      String
      → ProcedureRegistry
      → Json
      → TransferManifest × Dict Bytes × String
      → World
      → Stores Bytes Server
      → DemoEnded Bytes Server
  unfolding report_transfer ingesting
  transferred path registry scan_result (manifest, inbox, log) w s =
      and_then (report_transfer manifest inbox) (ingesting path manifest registry scan_result) w
        (record { inbox = inbox; transfer_log = log; server = s.server })

  -- The transfer of step 2, at the time `now`.
  unfoldable pub transferring :
      String
      → ProcedureRegistry
      → Json
      → String
      → World
      → Stores Bytes Server
      → DemoEnded Bytes Server
  unfolding transfer transferred
  transferring path registry scan_result now w s =
      transferred path registry scan_result
        (transfer d.storage now d.staging_dir d.staging s.inbox s.transfer_log) w s

  -- The end of step 1 and the start of step 2.
  unfoldable pub report_scan : Json → M String
  unfolding print_scan pause print_all
  report_scan scan_result = do
    _ ← print_scan scan_result
    _ ← pause env args
    _ ← banner 2 "DMZ transfer simulation (knowledge_staging -> knowledge_inbox)"
    _ ← print_all (
        "Mimics DB_PATCHING_SCOPE.md's 'one-directional DMZ transfer' — a staging"
        ∷ "machine with internet access authors/curates content; it crosses into the"
        ∷ "air-gapped side one-directionally; ingestion reads only what arrived, never"
        ∷ "the network. knowledge_inbox/ is gitignored/regenerated — a fresh clone"
        ∷ "starts with an empty inbox, same as a fresh air-gapped box before its first"
        ∷ "monthly transfer." ∷ [])
    now_iso env

  unfoldable pub report_failed_scan : String → M ℕ
  unfolding print_all
  report_failed_scan m =
      print_all (
        ("Scan failed: " <> m)
        ∷ "(Is the vagrant VM up, and is the CDB/listener started? See STATUS.md 'Open Issues'.)"
        ∷ [])
      >> pure 1

  unfoldable pub after_scan :
      String
      → ProcedureRegistry
      → Json ⊎ String
      → World
      → Stores Bytes Server
      → DemoEnded Bytes Server
  unfolding report_scan transferring report_failed_scan
  after_scan path registry (inl scan_result) =
      and_then (report_scan scan_result) (transferring path registry scan_result)
  after_scan path registry (inr m) = finish (report_failed_scan m)

  -- The scan of step 1.
  unfoldable pub scanning : ProcedureRegistry → M (Json ⊎ String)
  unfolding scan
  scanning registry = do
    _ ←
        banner 1
          ("Live scan of '" <> args.target <> "' (read-only, real Ansible against the real VM)")
    caught_scan (
        scan d.loads env d.scan_playbook d.disk.ansible_dir args.inventory args.target
          (arr (items (object (("sid", str args.cdb_sid) ∷ []) ∷ []))) d.timeout_seconds)

  -- The registry, after the checks.
  unfoldable pub loading : M ProcedureRegistry
  unfolding pause
  loading = pause env args >> lift (Registry.load d.disk d.registry_files)

  unfoldable pub ready : String → Bool → World → Stores Bytes Server → DemoEnded Bytes Server
  unfolding loading scanning after_scan
  ready path true =
      and_then loading (λ registry. and_then (scanning registry) (after_scan path registry))
  ready path false = finish (pure 1)

  unfoldable pub opening : String → M Bool
  unfolding print_all run_preflight
  opening path = do
    _ ← print_all (
        ("Logging this run's full transcript to: " <> path)
        ∷ "Oracle DB Patching — Agentic POC — live demo"
        ∷ "Every step below is a real call against a real target. Nothing is mocked."
        ∷ [])
    run_preflight d.services d.targets env

  -- From the transcript on; the arguments and the settings are values.
  unfoldable pub demo_main : World → Stores Bytes Server → DemoEnded Bytes Server
  unfolding opening ready
  demo_main w s = and_then (opening (d.transcript w)) (ready (d.transcript w)) w s

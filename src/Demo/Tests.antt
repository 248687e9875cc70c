-- ===== src/Demo/Tests.antt =====
-- A demonstration whose vector store does not answer, and one of a target that is scanned.
use oracle_patching.Prelude.{
  ℕ, suc, String, ◌≡◌, refl, inl, true, false, Option, none, some, List, [], ◌∷◌,
}
use oracle_patching.Errors.{ok}
use oracle_patching.Text.{str_len}
use oracle_patching.Json.{Json, null, str, arr, object, items}
use oracle_patching.World.{Env}
use oracle_patching.Json.Read.{no_hooks}
use oracle_patching.World.{Event}
use oracle_patching.World.Trace.{commands}
use oracle_patching.World.Extends.{Extends}
use oracle_patching.Ingest.{KnowledgeObject, QdrantClient}
use oracle_patching.Preflight.{Targets, Services, ping_command}
use oracle_patching.Preflight.Verdict.{run_preflight-Required}
use oracle_patching.Samples.{sample_disk, sample_files, sample_env, sample_world, willing}
use oracle_patching.Demo.{DemoArgs, DemoDeployment, Stores}
use oracle_patching.Demo.Walk.{demo_main, opening, ready}
use oracle_patching.Registry.{load, load_file}
use oracle_patching.Procedure.{preconditions_are_known}
use oracle_patching.Prelude.Dict.{insert, insert_all}
use oracle_patching.Dmz.{unlink_stale}
use oracle_patching.World.{audit_append}
use oracle_patching.Version.{version_in_range}
use oracle_patching.Audit.File.{log_text}
use oracle_patching.Audit.{append, to_json_line}
use oracle_patching.Scanner.{extract_db_version}
use oracle_patching.Demo.Walk.{opening, ready}
use oracle_patching.Demo.Extends.{demo_main-Extends}
use oracle_patching.Demo.Gate.{checks, greeted, demo_main-stops}

abbrev targets : Targets
targets = record {
  ansible_dir = "/srv/ansible";
  inventory = "hosts.yml";
  target = "db1";
  vm_timeout_seconds = 60;
  qdrant_host = "localhost";
  qdrant_port = 6333;
  base_url = "http://localhost:11434/v1";
  llm_timeout_seconds = 5;
  postgres_password = "";
  timeout_seconds = 10;
}

-- What the vector store says of a failure, if it does not answer.
abbrev services : Option String → Services
services failure = record {
  urlopen = λ url timeout. ok "{}";
  get_collections = λ host port timeout. failure;
  connect = λ password timeout. none;
  is_file_not_found = λ m. true;
}

abbrev object_of : String → KnowledgeObject
object_of id = record {
  id = id;
  title = "Check for conflicts";
  category = "opatch";
  applicable_min_version = none;
  applicable_max_version = none;
  preconditions = [];
  steps = [];
  validation = [];
  rollback = [];
  source = "runbook";
}

-- A store that keeps the number of its writes.
abbrev counter : QdrantClient String ℕ
counter = record {
  get_collections = λ s. (ok [], s);
  create_collection = λ name dimension distance s. (ok tt, suc s);
  upsert = λ name ps s. (ok tt, suc s);
}

abbrev deployment : Option String → DemoDeployment String String ℕ
deployment failure = record {
  targets = targets;
  services = services failure;
  disk = sample_disk;
  registry_files = sample_files;
  scan_playbook = "/srv/ansible/scan_playbook.yml";
  timeout_seconds = 600;
  loads = λ text. inl null;
  storage = record { sha256_hex = λ s. s; size = str_len; encode = λ s. s };
  staging_dir = "/srv/staging";
  staging = ("opatch.yml", "conflicts") ∷ [];
  read_object = λ text. ok (object_of text);
  client = counter;
  uuid5 = λ s. s;
  embedder = λ real. record { dimension = 32; embed = λ s. s };
  query = λ real s demo_collection text limit. [];
  llm = willing;
  model = "llama";
  hooks = no_hooks;
  audit_log_path = "/srv/audit.jsonl";
  python = "python3";
  scaffold_root = "/srv/agentic";
  transcript = λ w. "/srv/demo.log";
}

abbrev args : DemoArgs
args = record {
  auto = true;
  real_embeddings = false;
  target = "db1";
  inventory = "hosts.yml";
  cdb_sid = "CDB1";
  oracle_os_owner = "oracle";
}

abbrev stores : Stores String ℕ
stores = record { inbox = []; transfer_log = ""; server = 0 }

abbrev refused : DemoDeployment String String ℕ
refused = deployment (some "connection refused")

refused-fails : ¬ ((checks sample_env refused args sample_world).0 ≡ ok true)
refused-fails h =
    let required =
      run_preflight-Required refused.services targets sample_env
        (greeted sample_env refused args sample_world) in
    let (zero_rc, listed, page) = required.0.0 h in cc

demo_main-stops_example :
    ((demo_main sample_env refused args sample_world stores).2 ≡ stores)
    × ¬ ((demo_main sample_env refused args sample_world stores).0 ≡ ok 0)
    × (es : List Event) × ((demo_main sample_env refused args sample_world stores).1.events ≡ es)
    × (commands es ≡ ping_command targets ∷ [])
demo_main-stops_example = demo_main-stops sample_env refused args sample_world stores refused-fails

demo_main-Extends_example :
    Extends sample_env.sha256_hex sample_world
      (demo_main sample_env (deployment none) args sample_world stores).1
demo_main-Extends_example = demo_main-Extends sample_env (deployment none) args sample_world stores

-- A scan of a host with one database.
abbrev sample_scan : Json
sample_scan = object (
    ("host", str "db1")
    ∷ (
      "os",
      object (("distribution", str "OracleLinux") ∷ ("distribution_version", str "8.9") ∷ []),
    )
    ∷ ("oracle_home", str "/u01/db")
    ∷ ("opatch_version", str "12.2.0.1.42")
    ∷ (
      "cdbs",
      arr (
          items (
            object (
              ("sid", str "CDB1")
              ∷ ("raw", str "READ WRITE\nOPEN\nPRIMARY\nYES\n0\n19.3.0.0.0\n")
              ∷ [])
            ∷ [])),
    )
    ∷ [])

abbrev sample_output : Json
sample_output =
    let result = object (("scan_result", sample_scan) ∷ []) in
    let task = object (("hosts", object (("db1", result) ∷ [])) ∷ []) in
    object (("plays", arr (items (object (("tasks", arr (items (task ∷ []))) ∷ []) ∷ []))) ∷ [])

abbrev answering : DemoDeployment String String ℕ
answering = record (deployment none) { loads = λ text. inl sample_output }

abbrev constant_env : Env
constant_env = record sample_env { sha256_hex = λ s. "d" }

-- The walk ends with status 0, one object is ingested, and the log has the entries of the run.
demo_walk :
    ((demo_main constant_env answering args sample_world stores).0 ≡ ok 0)
    × ((demo_main constant_env answering args sample_world stores).2.server ≡ 2)
unfolding demo_main opening ready load load_file preconditions_are_known insert insert_all
    unlink_stale audit_append version_in_range log_text append to_json_line extract_db_version
demo_walk = (refl, refl)

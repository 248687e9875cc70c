-- ===== src/Samples.antt =====
-- Sample inputs for the tests: one registered procedure, a plan for it, surroundings in which
-- every process succeeds and the target version is typed, and a model server that proposes the plan.
use oracle_patching.Prelude.{String, ◌⊎◌, inl, true, false, none, some, List, [], ◌∷◌}
use oracle_patching.Prelude.Int.{pos}
use oracle_patching.Errors.{ok}
use oracle_patching.Procedure.{ProcedureDefinition, single_instance}
use oracle_patching.Registry.{ProcedureRegistry, Disk, YmlFile}
use oracle_patching.Plan.{PatchPlan}
use oracle_patching.World.{completed, Env, World}
use oracle_patching.Agent.{Llm, Reply, content, Message}
use oracle_patching.Executor.{RunContext}

abbrev pub sample_procedure : ProcedureDefinition
sample_procedure = record {
  procedure_id = "oracle_19c_ru_patch";
  description = "19c release update";
  target_type = single_instance;
  min_supported_version = "19.0.0.0.0";
  max_supported_version = "19.99.99.99.99";
  precheck_playbook = "precheck.yml";
  apply_playbook = "apply.yml";
  rollback_info_playbook = "rollback.yml";
  confirm_var_name = "confirm_patch";
  required_preconditions = "disk_space_verified" ∷ [];
  requires_grid_infra = false;
  notes = none;
}

abbrev pub sample_registry : ProcedureRegistry
sample_registry = record { procedures = ("oracle_19c_ru_patch", sample_procedure) ∷ [] }

abbrev pub sample_disk : Disk
sample_disk = record {
  read_definition = λ text. ok sample_procedure;
  is_file = λ path. true;
  procedures_dir = "/srv/procedures";
  ansible_dir = "/srv/ansible";
}

abbrev pub sample_files : List YmlFile
sample_files = record { stem = "oracle_19c_ru_patch"; text = "" } ∷ []

abbrev pub sample_plan : PatchPlan
sample_plan = record {
  procedure_id = "oracle_19c_ru_patch";
  target = "db1";
  current_version = "19.3.0.0.0";
  target_version = "19.24.0.0.0";
  preconditions_checked = ("disk_space_verified", true) ∷ [];
  risk_notes = none;
}

-- A plan for a procedure that is not in the registry.
abbrev pub unknown_plan : PatchPlan
unknown_plan = record sample_plan { procedure_id = "drop_database" }

abbrev pub sample_context : RunContext
sample_context = record {
  ansible_dir = "/srv/ansible";
  inventory = "hosts.yml";
  target_host = "db1";
  oracle_os_owner = "oracle";
  subprocess_timeout_seconds = 600;
}

abbrev pub sample_env : Env
sample_env = record {
  sha256_hex = λ s. s;
  subprocess = λ es c. completed (pos 0) "" "";
  typed = λ es prompt. some "19.24.0.0.0";
  user = "dba";
  isoformat = λ n. "2026-09-22T12:00:00+00:00";
  stamp = λ n. "20260922120000";
}

abbrev pub sample_world : World
sample_world = record { events = []; log = []; readings = 0 }

-- A model server with settings.
abbrev pub server : (List String → List Message → Reply) → (String → PatchPlan ⊎ String) → Llm
server chat read = record {
  base_url = "http://localhost:11434/v1";
  timeout_seconds = 180;
  max_schema_retries = 2;
  chat = chat;
  read_plan = λ ids raw. read raw;
  system_prompt = "propose a plan";
  type_error = "the JSON object must be str, bytes or bytearray, not NoneType";
}

-- It proposes the sample plan.
abbrev pub willing : Llm
willing = server (λ ids messages. content (some "{}")) λ raw. inl sample_plan

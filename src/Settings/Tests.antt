-- ===== src/Settings/Tests.antt =====
-- The settings of the repository, with a password in the environment.
use oracle_patching.Prelude.{String, ◌≡◌, refl, some, List, [], ◌∷◌}
use oracle_patching.Prelude.Int.{pos}
use oracle_patching.Text.{path_join}
use oracle_patching.Errors.{ok}
use oracle_patching.Settings.{
  Yaml, Members, int, float, text, mapping, end, field, System, Settings, item, password_of,
  load_settings,
}
use oracle_patching.Settings.Secret.{HasNoPassword, load_settings-Secret}

abbrev machine : System
machine = record {
  resolve = λ p. p;
  expanduser = λ p. "/home/dba/.oracle_patching/agentic_audit.jsonl";
  environ = λ name. some "secret";
}

abbrev members : List (String × Yaml) → Members
members [] = end
members ((k, v) ∷ fs) = field k v (members fs)

abbrev of_list : List (String × Yaml) → Yaml
of_list fs = mapping (members fs)

-- What config/settings.yaml holds.
abbrev raw_settings : Yaml
raw_settings = of_list (
    ("base_repo_path", text "..")
    ∷ (
      "qdrant",
      of_list (
          ("host", text "localhost")
          ∷ ("port", int (pos 6333))
          ∷ ("collection", text "oracle_procedures")
          ∷ []),
    )
    ∷ (
      "postgres",
      of_list (
          ("host", text "localhost")
          ∷ ("port", int (pos 5432))
          ∷ ("db", text "oracle_patching_ops")
          ∷ ("user", text "patching_agent")
          ∷ []),
    )
    ∷ (
      "llm",
      of_list (
          ("base_url", text "http://localhost:11434/v1")
          ∷ ("model", text "qwen2.5:3b-instruct")
          ∷ ("max_schema_retries", int (pos 2))
          ∷ ("temperature", float "0.1")
          ∷ ("timeout_seconds", int (pos 120))
          ∷ ("preflight_timeout_seconds", int (pos 10))
          ∷ []),
    )
    ∷ ("subprocess_timeout_seconds", int (pos 600))
    ∷ ("preflight_timeout_seconds", int (pos 10))
    ∷ ("preflight_vm_timeout_seconds", int (pos 60))
    ∷ ("audit", of_list (("log_path", text "~/.oracle_patching/agentic_audit.jsonl") ∷ []))
    ∷ ("registry", of_list (("procedures_dir", text "registry/procedures") ∷ []))
    ∷ [])

abbrev loaded : Settings
loaded = record {
  base_repo_path = "/srv/agent/..";
  ansible_dir = "/srv/agent/../ansible";
  qdrant = record {
    host = text "localhost";
    port = int (pos 6333);
    collection = text "oracle_procedures";
  };
  postgres = record {
    host = text "localhost";
    port = int (pos 5432);
    db = text "oracle_patching_ops";
    user = text "patching_agent";
    password = "secret";
  };
  llm = record {
    base_url = text "http://localhost:11434/v1";
    model = text "qwen2.5:3b-instruct";
    max_schema_retries = int (pos 2);
    temperature = float "0.1";
    timeout_seconds = int (pos 120);
    preflight_timeout_seconds = int (pos 10);
  };
  audit_log_path = "/home/dba/.oracle_patching/agentic_audit.jsonl";
  procedures_dir = "/srv/agent/registry/procedures";
  subprocess_timeout_seconds = int (pos 600);
  preflight_timeout_seconds = int (pos 10);
  preflight_vm_timeout_seconds = int (pos 60);
}

settings_load : load_settings machine "/srv/agent" raw_settings ≡ ok loaded
unfolding load_settings
settings_load = refl

load_settings-Secret_example :
    ("secret" ≡ password_of machine)
    × ((j : Yaml) × (item "postgres" raw_settings ≡ ok j) × HasNoPassword j)
    × ("/srv/agent/../ansible" ≡ path_join "/srv/agent/.." "ansible")
load_settings-Secret_example =
    load_settings-Secret machine "/srv/agent" raw_settings loaded settings_load

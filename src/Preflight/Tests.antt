-- ===== src/Preflight/Tests.antt =====
-- Services that answer, other than PostgreSQL, whose password is not set.
use oracle_patching.Prelude.{◌<>◌, ◌≡◌, refl, ◌↔◌, true, none, some, List, [], ◌∷◌}
use oracle_patching.Errors.{ok}
use oracle_patching.Text.{has_prefix}
use oracle_patching.World.{Event}
use oracle_patching.World.Trace.{commands}
use oracle_patching.Preflight.{Targets, Services, ping_command, rsplit_head, run_preflight}
use oracle_patching.Preflight.Verdict.{IsPage, IsZero, ping, run_preflight-Required}
use oracle_patching.Samples.{sample_env, sample_world}

abbrev sample_targets : Targets
sample_targets = record {
  ansible_dir = "/srv/ansible";
  inventory = "hosts.yml";
  target = "db1";
  vm_timeout_seconds = 60;
  qdrant_host = "localhost";
  qdrant_port = 6333;
  base_url = "http://localhost:11434/v1";
  llm_timeout_seconds = 5;
  postgres_password = "";
  timeout_seconds = 10;
}

abbrev answering : Services
answering = record {
  urlopen = λ url timeout. ok "{\"version\": \"0.6\"}";
  get_collections = λ host port timeout. none;
  connect = λ password timeout. some "connection refused";
  is_file_not_found = λ m. true;
}

version_page : rsplit_head "/v1" "http://localhost:11434/v1" ≡ "http://localhost:11434"
unfolding rsplit_head has_prefix
version_page = refl

run_preflight-Required_example :
    (((run_preflight answering sample_targets sample_env sample_world).0 ≡ ok true) ↔ (
      IsZero (ping answering sample_targets sample_env sample_world)
      × (answering.get_collections "localhost" 6333 10 ≡ none)
      × IsPage
          (answering.urlopen (rsplit_head "/v1" "http://localhost:11434/v1" <> "/api/version") 5)))
    × (es : List Event) × ((run_preflight answering sample_targets sample_env sample_world).1.events
        ≡ es)
    × (commands es ≡ ping_command sample_targets ∷ [])
run_preflight-Required_example =
    run_preflight-Required answering sample_targets sample_env sample_world

-- ===== src/Settings.antt =====
-- Patching_Agentic/config/settings.py: the settings, from the mapping that their YAML file holds, as
-- `yaml.safe_load` gives it. The
-- dataclasses check the names of their arguments and not their types, so that most fields hold any
-- value. A TypeError carries the name it is about in place of its message.
pub mod Secret
mod Tests
use oracle_patching.Prelude.{
  ◌-◌, ◌*◌, ◌/◌, String, refl, ap, Bool, false, not, ◌||◌, Option, none, some, List, [], ◌∷◌, map,
  str_eq, if◌then◌else◌, take,
}
use oracle_patching.Text.{path_join}
use oracle_patching.Prelude.Int.{ℤ}
use oracle_patching.Errors.{Result, ok, raise, require, type_error, key_error, ◌>>=◌}

-- A value of a YAML file: a float by its numeral, and a mapping by its members, whose keys are texts
-- and differ.
mutual
  pub data Yaml : Type 0 where
    null : Yaml
    bool : Bool → Yaml
    int : ℤ → Yaml
    float : String → Yaml
    text : String → Yaml
    sequence : Elements → Yaml
    mapping : Members → Yaml

  pub data Elements : Type 0 where
    nil : Elements
    cons : Yaml → Elements → Elements

  pub data Members : Type 0 where
    end : Members
    field : String → Yaml → Members → Members

unfoldable pub member : String → Members → Option Yaml
member k end = none
member k (field j v fs) = let rest = member k fs in if str_eq j k then some v else rest

pub record QdrantSettings : Type 0 where
  pub host : Yaml
  pub port : Yaml
  pub collection : Yaml

pub record PostgresSettings : Type 0 where
  pub host : Yaml
  pub port : Yaml
  pub db : Yaml
  pub user : Yaml
  pub password : String

pub record LlmSettings : Type 0 where
  pub base_url : Yaml
  pub model : Yaml
  pub max_schema_retries : Yaml
  pub temperature : Yaml
  pub timeout_seconds : Yaml
  pub preflight_timeout_seconds : Yaml

pub record Settings : Type 0 where
  pub base_repo_path : String
  pub ansible_dir : String
  pub qdrant : QdrantSettings
  pub postgres : PostgresSettings
  pub llm : LlmSettings
  pub audit_log_path : String
  pub procedures_dir : String
  pub subprocess_timeout_seconds : Yaml
  pub preflight_timeout_seconds : Yaml
  pub preflight_vm_timeout_seconds : Yaml

-- What the operating system answers: `resolve` and `expanduser` of a path, and the environment.
pub record System : Type 0 where
  pub resolve : String → String
  pub expanduser : String → String
  pub environ : String → Option String

-- raw[key]
unfoldable pub item : String → Yaml → Result Yaml
unfolding member
item key (mapping fs) = elim (member key fs) [ some v ↦ ok v | none ↦ raise (key_error key) ]
item key j = raise (type_error key)

-- A value that a path is made of.
abbrev pub path_text : Yaml → Result String
path_text (text s) = ok s
path_text j = raise (type_error "path")

abbrev pub is_name : String → List String → Bool
is_name k [] = false
is_name k (n ∷ names) = str_eq n k || is_name k names

-- The `**` of a call takes arguments of these names only.
unfoldable pub only : List String → Members → Result (Unit {0})
only names end = ok tt
only names (field k v fs) =
    let rest = only names fs in if is_name k names then rest else raise (type_error k)

-- An argument that has no default.
unfoldable pub argument : String → Members → Result Yaml
unfolding member
argument name fs = elim (member name fs) [ some v ↦ ok v | none ↦ raise (type_error name) ]

unfoldable pub qdrant_settings : Yaml → Result QdrantSettings
unfolding only argument
qdrant_settings (mapping fs) = do
  _ ← only ("host" ∷ "port" ∷ "collection" ∷ []) fs
  host ← argument "host" fs
  port ← argument "port" fs
  collection ← argument "collection" fs
  ok (record { host = host; port = port; collection = collection })
qdrant_settings j = raise (type_error "qdrant")

-- The password comes from the environment; a second one is an error.
unfoldable pub postgres_settings : String → Yaml → Result PostgresSettings
unfolding only argument
postgres_settings password (mapping fs) = do
  _ ← only ("host" ∷ "port" ∷ "db" ∷ "user" ∷ []) fs
  host ← argument "host" fs
  port ← argument "port" fs
  db ← argument "db" fs
  user ← argument "user" fs
  ok (record { host = host; port = port; db = db; user = user; password = password })
postgres_settings password j = raise (type_error "postgres")

unfoldable pub llm_settings : Yaml → Result LlmSettings
unfolding only argument
llm_settings (mapping fs) = do
  _ ←
      only
        ("base_url" ∷ "model" ∷ "max_schema_retries" ∷ "temperature" ∷ "timeout_seconds"
          ∷ "preflight_timeout_seconds" ∷ [])
        fs
  base_url ← argument "base_url" fs
  model ← argument "model" fs
  max_schema_retries ← argument "max_schema_retries" fs
  temperature ← argument "temperature" fs
  timeout_seconds ← argument "timeout_seconds" fs
  preflight_timeout_seconds ← argument "preflight_timeout_seconds" fs
  ok (record {
    base_url = base_url;
    model = model;
    max_schema_retries = max_schema_retries;
    temperature = temperature;
    timeout_seconds = timeout_seconds;
    preflight_timeout_seconds = preflight_timeout_seconds;
  })
llm_settings j = raise (type_error "llm")

-- os.environ.get("POSTGRES_PASSWORD", "")
abbrev pub password_of : System → String
password_of system = elim (system.environ "POSTGRES_PASSWORD") [ some s ↦ s | none ↦ "" ]

abbrev pub path_item : String → Yaml → Result String
unfolding item
path_item key raw = item key raw >>= path_text

-- `scaffold_root` is the folder above that of the file, and `raw` is what the file holds.
unfoldable pub load_settings : System → String → Yaml → Result Settings
unfolding item path_join qdrant_settings postgres_settings llm_settings
load_settings system scaffold_root raw = do
  base ← path_item "base_repo_path" raw
  qdrant ← item "qdrant" raw >>= qdrant_settings
  postgres ← item "postgres" raw >>= postgres_settings (password_of system)
  llm ← item "llm" raw >>= llm_settings
  log_path ← item "audit" raw >>= path_item "log_path"
  procedures ← item "registry" raw >>= path_item "procedures_dir"
  subprocess ← item "subprocess_timeout_seconds" raw
  preflight ← item "preflight_timeout_seconds" raw
  vm ← item "preflight_vm_timeout_seconds" raw
  let base_repo_path = system.resolve (path_join scaffold_root base)
  ok (record {
    base_repo_path = base_repo_path;
    ansible_dir = path_join base_repo_path "ansible";
    qdrant = qdrant;
    postgres = postgres;
    llm = llm;
    audit_log_path = system.expanduser log_path;
    procedures_dir = system.resolve (path_join scaffold_root procedures);
    subprocess_timeout_seconds = subprocess;
    preflight_timeout_seconds = preflight;
    preflight_vm_timeout_seconds = vm;
  })

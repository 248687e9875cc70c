-- ===== src/Preflight.antt =====
-- Patching_Agentic/demo.py: the checks before the demonstration starts.
pub mod Rows
pub mod Verdict
mod Tests
use oracle_patching.Prelude.{
  ℕ, zero, ◌-◌, ◌/◌, ◌<◌, String, ◌<>◌, refl, ap, Bool, true, false, not, ◌&&◌, Option, none, some,
  List, [], ◌∷◌, ◌==◌, if◌then◌else◌, get_last?, All,
}
use oracle_patching.Prelude.Int.{is_zero}
use oracle_patching.Text.{has_prefix, is_empty, strip}
use oracle_patching.Text.Decimal.{decimal}
use oracle_patching.Errors.{Result, ok, raise, index_error, os_error}
use oracle_patching.World.{
  World, Env, M, Command, Outcome, completed, timed_out, unavailable, ◌>>=◌, ◌>>◌, pure, lift,
  print, run_process,
}
use oracle_patching.Scanner.{splitlines}

-- The settings and the arguments that the checks read.
pub record Targets : Type 0 where
  pub ansible_dir : String
  pub inventory : String
  pub target : String
  pub vm_timeout_seconds : ℕ
  pub qdrant_host : String
  pub qdrant_port : ℕ
  pub base_url : String
  pub llm_timeout_seconds : ℕ
  pub postgres_password : String
  pub timeout_seconds : ℕ

-- The services: the text of a page or the exception that `urlopen` or the reading raises (URLError and
-- TimeoutError are OSErrors, an HTTPException or a UnicodeDecodeError is not), the exception of `get_collections` and of `psycopg.connect`, if they raise one, and which OSError of a process is
-- a FileNotFoundError.
pub record Services : Type 0 where
  pub urlopen : String → ℕ → Result String
  pub get_collections : String → ℕ → ℕ → Option String
  pub connect : String → ℕ → Option String
  pub is_file_not_found : String → Bool

-- What a check says: whether the service answers, None where the check was skipped, and a message.
abbrev pub Check : Type 0
Check = Option Bool × String

abbrev last_of : List String → Result String
last_of ls = elim (get_last? ls) [
  | some l ↦ ok l
  | none ↦ raise (index_error "list index out of range")
]

-- The last line of what the command printed.
abbrev pub last_line : String → Result String
last_line text = if is_empty text then ok "unreachable" else last_of (splitlines (strip text))

abbrev pub failed_with : Result String → Result Check
failed_with (ok m) = ok (some false, m)
failed_with (raise e) = raise e

abbrev pub ping_command : Targets → Command
ping_command t = record {
  argv = "ansible" ∷ t.target ∷ "-i" ∷ t.inventory ∷ "-m" ∷ "ping" ∷ [];
  cwd = t.ansible_dir;
  extra_env = [];
  timeout = t.vm_timeout_seconds;
}

-- The text before the last occurrence of the separator.
before_last : String → String → Option String
before_last sep String.[] = none
before_last sep (String.◌∷◌ c s) = elim (before_last sep s) [
  | some t ↦ some (String.◌∷◌ c t)
  | none ↦ if has_prefix sep (String.◌∷◌ c s) then some "" else none
]

-- text.rsplit(sep, 1)[0]
unfoldable pub rsplit_head : String → String → String
unfolding before_last
rsplit_head sep text = elim (before_last sep text) [ some t ↦ t | none ↦ text ]

-- f"{text:4}"
abbrev pub status : Option Bool → String
status none = "SKIP"
status (some true) = "OK  "
status (some false) = "FAIL"

abbrev pub rule : String
rule = "========================================================================"

abbrev pub banner : ℕ → String → M Unit
banner n title =
    print "" >> print rule >> print (" STEP " <> decimal n <> ": " <> title) >> print rule

abbrev pub first_banner : M Unit
first_banner = banner 0 "Preflight checks — fail fast instead of hanging"

-- The name of the check, what it says, and whether its failure is fatal.
abbrev pub Row : Type 0
Row = String × Check × Bool

abbrev pub is_failure : Option Bool → Bool
is_failure (some false) = true
is_failure _ = false

-- The loop over the checks, which tells whether every required one passed.
unfoldable pub report : List Row → Bool → M Bool
report [] all_required_ok = pure all_required_ok
report ((name, (passed, msg), fatal) ∷ checks) all_required_ok =
    print ("  [" <> status passed <> "] " <> name <> ": " <> msg)
    >> report checks (all_required_ok && not (is_failure passed && fatal))

abbrev pub conclude : Bool → M Unit
conclude true = print "\nAll required services responding."
conclude false =
    print "\nOne or more required services aren't responding — stopping now instead of"
    >> print "hanging partway through a later step with no way to tell why."

-- An exception other than an OSError is not caught.
abbrev pub page_check : Result String → Result Check
unfolding strip
page_check (ok body) = ok (some true, strip body)
page_check (raise (os_error m)) = ok (
  some false,
  m <> " — if this is a timeout, a prior Ctrl-C'd run may have orphaned a stuck "
      <> "generation on the model server's single request slot; try `brew services restart ollama`.",
)
page_check (raise e) = raise e

abbrev pub reached : Option String → Check
reached none = (some true, "reachable")
reached (some m) = (some false, m)

module _ (services : Services) (t : Targets) where
  unfoldable pub ping_result : Outcome → Result Check
  unfolding splitlines strip
  ping_result (completed rc out err) =
      if is_zero rc
      then ok (some true, "pong")
      else failed_with (last_line (if is_empty err then out else err))
  ping_result (timed_out out) = ok (
    some false,
    "timed out after "
        <> decimal t.vm_timeout_seconds
        <> "s — VM stopped, or CDB/listener not started?",
  )
  ping_result (unavailable m) =
      if services.is_file_not_found m then ok (some false, m) else raise (os_error m)

  -- _check_vm_ansible
  unfoldable pub check_vm_ansible : Env → M Check
  unfolding ping_result run_process
  check_vm_ansible env = do outcome ← run_process env (ping_command t); lift (ping_result outcome)

  -- _check_ollama
  unfoldable pub check_ollama : Result Check
  unfolding rsplit_head strip
  check_ollama =
      page_check
        (services.urlopen (rsplit_head "/v1" t.base_url <> "/api/version") t.llm_timeout_seconds)

  -- _check_qdrant
  unfoldable pub check_qdrant : Check
  check_qdrant = reached (services.get_collections t.qdrant_host t.qdrant_port t.timeout_seconds)

  -- _check_postgres
  unfoldable pub check_postgres : Check
  check_postgres =
      if is_empty t.postgres_password
      then (
        none,
        "POSTGRES_PASSWORD not set — skipped (this script itself doesn't need Postgres, only tests/ does)",
      )
      else reached (services.connect t.postgres_password t.timeout_seconds)

  abbrev pub rows : Check → Check → List Row
  rows vm llm =
      ("Vagrant VM / Ansible SSH (" <> t.target <> ")", vm, true)
      ∷ ("Qdrant (" <> t.qdrant_host <> ":" <> decimal t.qdrant_port <> ")", check_qdrant, true)
      ∷ ("LLM server (" <> t.base_url <> ")", llm, true)
      ∷ ("Postgres (optional — only used by tests/)", check_postgres, false)
      ∷ []

  -- From the last check on.
  unfoldable pub conclude_rows : Check → Check → M Bool
  unfolding check_qdrant check_postgres report
  conclude_rows vm llm = do
    all_required_ok ← report (rows vm llm) true
    _ ← conclude all_required_ok
    pure all_required_ok

  -- From the check of the virtual machine on.
  unfoldable pub conclude_with : Check → M Bool
  unfolding check_ollama conclude_rows
  conclude_with vm = do llm ← lift check_ollama; conclude_rows vm llm

  unfoldable pub run_preflight : Env → M Bool
  unfolding check_vm_ansible conclude_with
  run_preflight env = first_banner >> check_vm_ansible env >>= conclude_with

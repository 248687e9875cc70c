-- ===== src/Runner.antt =====
-- Patching_Agentic/executor/ansible_runner.py: calls of `ansible-playbook`.
pub mod Argv
mod Tests
use oracle_patching.Prelude.{
  ℕ, zero, suc, ◌-◌, ◌*◌, ◌/◌, ◌<◌, code, String, ◌<>◌, ap, Bool, false, not, ◌||◌, none, some,
  List, [], ◌∷◌, str_eq, if◌then◌else◌,
}
use oracle_patching.Prelude.Int.{ℤ, pos, negsuc, is_zero}
use oracle_patching.Text.{path_join}
use oracle_patching.Text.Decimal.{decimal}
use oracle_patching.Errors.{ok, raise, value_error, os_error}
use oracle_patching.World.{
  Command, Outcome, completed, timed_out, unavailable, Env, M, ◌>>=◌, pure, throw, run_process,
}

pub record PlaybookResult : Type 0 where
  pub playbook : String
  pub returncode : ℤ
  pub stdout : String
  pub stderr : String

-- The property `ok`.
abbrev pub succeeded : PlaybookResult → Bool
succeeded r = is_zero r.returncode

-- A dict of extra variables, in its order.
abbrev pub Vars : Type 0
Vars = List (String × String)

unfoldable pub has_var : String → Vars → Bool
has_var k [] = false
has_var k ((j, v) ∷ vars) = str_eq j k || has_var k vars

-- {**vars, key: value}
unfoldable pub put_var : String → String → Vars → Vars
put_var k v [] = (k, v) ∷ []
put_var k v ((j, w) ∷ vars) =
    let rest = put_var k v vars in if str_eq j k then (j, v) ∷ vars else (j, w) ∷ rest

-- The loop that adds `-e key=value`.
unfoldable pub extra_args : Vars → List String
extra_args [] = []
extra_args ((k, v) ∷ vars) = "-e" ∷ (k <> "=" <> v) ∷ extra_args vars

unfoldable pub playbook_command : String → String → String → Vars → ℕ → Command
unfolding path_join extra_args
playbook_command ansible_dir playbook inventory extra_vars timeout = record {
  argv =
      "ansible-playbook"
      ∷ path_join ansible_dir playbook
      ∷ "-i"
      ∷ inventory
      ∷ extra_args extra_vars;
  cwd = ansible_dir;
  extra_env = [];
  timeout = timeout;
}

unfoldable pub playbook_result : String → ℕ → Outcome → M PlaybookResult
playbook_result playbook timeout (completed rc out err) =
    pure (record { playbook = playbook; returncode = rc; stdout = out; stderr = err })
playbook_result playbook timeout (timed_out out) = pure (record {
  playbook = playbook;
  returncode = negsuc 0;
  stdout = elim out [ none ↦ "" | some text ↦ text ];
  stderr =
      "ansible-playbook timed out after "
      <> decimal timeout
      <> "s (killed). Check whether the target host is reachable (SSH hang, VM stopped mid-run, network blip).";
})
playbook_result playbook timeout (unavailable m) = throw (os_error m)

module _ (env : Env) where
  unfoldable pub run : String → String → String → Vars → ℕ → M PlaybookResult
  unfolding playbook_command playbook_result run_process
  run ansible_dir playbook inventory extra_vars timeout = do
    outcome ← run_process env (playbook_command ansible_dir playbook inventory extra_vars timeout)
    playbook_result playbook timeout outcome

  unfoldable pub run_precheck : String → String → String → Vars → ℕ → M PlaybookResult
  unfolding run put_var
  run_precheck ansible_dir playbook inventory extra_vars timeout =
      run ansible_dir playbook inventory (put_var "run_full_patch" "false" extra_vars) timeout

  unfoldable pub run_apply :
      String → String → String → Vars → String → String → ℕ → M PlaybookResult
  unfolding run put_var has_var
  run_apply ansible_dir playbook inventory extra_vars confirm_var_name patch_id timeout =
      if has_var confirm_var_name extra_vars
      then throw (
          value_error (
            confirm_var_name
            <> " must be supplied via the confirm_var_name mechanism, not extra_vars"))
      else run ansible_dir playbook inventory (put_var confirm_var_name patch_id extra_vars) timeout

  unfoldable pub run_rollback_info : String → String → String → Vars → ℕ → M PlaybookResult
  unfolding run
  run_rollback_info ansible_dir playbook inventory extra_vars timeout =
      run ansible_dir playbook inventory extra_vars timeout

-- ===== src/Scanner/Scan.antt =====
-- `scan`: the call of scan_playbook.yml, and its failures.
use oracle_patching.Prelude.{ℕ, String, ◌<>◌, ◌⊎◌, [], ◌∷◌, if◌then◌else◌}
use oracle_patching.Prelude.Int.{is_zero}
use oracle_patching.Text.{is_empty}
use oracle_patching.Text.Decimal.{decimal, decimal_ℤ}
use oracle_patching.Json.{Json, object, dumps, plain}
use oracle_patching.Errors.{Result, raise, scan_failed, os_error}
use oracle_patching.World.{
  Command, Outcome, completed, timed_out, unavailable, Env, M, ◌>>=◌, lift, run_process,
}
use oracle_patching.Scanner.{read_output}

-- The command; `playbook` is the path of scan_playbook.yml.
unfoldable pub scan_command : String → String → String → String → Json → ℕ → Command
unfolding dumps
scan_command playbook ansible_dir inventory scan_target cdbs timeout = record {
  argv =
      "ansible-playbook"
      ∷ playbook
      ∷ "-i"
      ∷ inventory
      ∷ "-e"
      ∷ ("scan_target=" <> scan_target)
      ∷ "-e"
      ∷ dumps plain (object (("cdbs", cdbs) ∷ []))
      ∷ [];
  cwd = ansible_dir;
  extra_env = ("ANSIBLE_STDOUT_CALLBACK", "json") ∷ [];
  timeout = timeout;
}

module _ (loads : String → Json ⊎ String) where
  unfoldable pub scan_result_of : String → ℕ → Outcome → Result Json
  unfolding read_output
  scan_result_of scan_target timeout (completed rc out err) =
      if is_zero rc
      then read_output loads scan_target out
      else raise (
          scan_failed (
            "scan_playbook.yml exited "
            <> decimal_ℤ rc
            <> " for target '"
            <> scan_target
            <> "':\n"
            <> (if is_empty err then out else err)))
  scan_result_of scan_target timeout (timed_out out) = raise (
      scan_failed (
        "scan_playbook.yml timed out after "
        <> decimal timeout
        <> "s for target '"
        <> scan_target
        <> "' (killed) — check whether the target host is reachable (SSH hang, VM stopped, network blip)."))
  scan_result_of scan_target timeout (unavailable m) = raise (os_error m)

  unfoldable pub scan : Env → String → String → String → String → Json → ℕ → M Json
  unfolding scan_command scan_result_of run_process
  scan env playbook ansible_dir inventory scan_target cdbs timeout = do
    outcome ← run_process env (scan_command playbook ansible_dir inventory scan_target cdbs timeout)
    lift (scan_result_of scan_target timeout outcome)

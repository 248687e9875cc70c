-- ===== src/Snapshot.antt =====
-- Patching_Agentic/executor/rollback/snapshot.py: the guaranteed restore point before a patch.
pub mod Name
mod Tests
use oracle_patching.Prelude.{
  ℕ, zero, suc, ◌-◌, ◌/◌, ◌<◌, Char, code, String, ◌<>◌, ap, Bool, ◌&&◌, ◌||◌, [], ◌∷◌, leb, ◌==◌,
  if◌then◌else◌, take,
}
use oracle_patching.Prelude.Int.{ℤ, negsuc, is_zero}
use oracle_patching.Text.{str_take, is_digit}
use oracle_patching.Text.Decimal.{decimal}
use oracle_patching.Errors.{ok, raise, os_error}
use oracle_patching.World.{
  Command, Outcome, completed, timed_out, unavailable, Env, M, ◌>>=◌, pure, throw, run_process,
  now_stamp,
}

-- A character of [A-Za-z0-9_].
unfoldable pub is_safe : Char → Bool
is_safe c =
    let n = code c in
    (leb b'A' n && leb n b'Z') || (leb b'a' n && leb n b'z') || is_digit c || n == b'_'

-- _SAFE_NAME_RE.sub("_", s)
unfoldable pub sanitize : String → String
unfolding is_safe
sanitize String.[] = ""
sanitize (String.◌∷◌ c s) = String.◌∷◌ (if is_safe c then c else "_") (sanitize s)

-- The name for a patch id and the stamp of the clock.
unfoldable pub name_at : String → String → String
unfolding sanitize str_take
name_at patch_id stamp =
    str_take 32 ("PREPATCH_" <> str_take 20 (sanitize patch_id) <> "_" <> stamp)

pub record SnapshotResult : Type 0 where
  pub restore_point : String
  pub returncode : ℤ
  pub stdout : String
  pub stderr : String

-- The property `ok`.
abbrev pub succeeded : SnapshotResult → Bool
succeeded r = is_zero r.returncode

unfoldable pub snapshot_command : String → String → String → String → String → ℕ → Command
snapshot_command ansible_dir inventory target_host oracle_os_owner name timeout =
    let sql = "CREATE RESTORE POINT " <> name <> " GUARANTEE FLASHBACK DATABASE;\n" <> "EXIT;\n" in
    record {
      argv =
          "ansible"
          ∷ target_host
          ∷ "-i"
          ∷ inventory
          ∷ "-m"
          ∷ "ansible.builtin.shell"
          ∷ "-a"
          ∷ ("echo \"" <> sql <> "\" | sqlplus -s / as sysdba")
          ∷ "--become"
          ∷ "--become-user"
          ∷ oracle_os_owner
          ∷ [];
      cwd = ansible_dir;
      extra_env = [];
      timeout = timeout;
    }

unfoldable pub snapshot_result : String → ℕ → Outcome → M SnapshotResult
snapshot_result name timeout (completed rc out err) =
    pure (record { restore_point = name; returncode = rc; stdout = out; stderr = err })
snapshot_result name timeout (timed_out out) = pure (record {
  restore_point = name;
  returncode = negsuc 0;
  stdout = "";
  stderr =
      "restore point creation timed out after "
      <> decimal timeout
      <> "s (killed) — check target host reachability";
})
snapshot_result name timeout (unavailable m) = throw (os_error m)

module _ (env : Env) where
  unfoldable pub restore_point_name : String → M String
  unfolding name_at
  restore_point_name patch_id = do stamp ← now_stamp env; pure (name_at patch_id stamp)

  unfoldable pub create_guaranteed_restore_point :
      String → String → String → String → String → ℕ → M SnapshotResult
  unfolding restore_point_name snapshot_command snapshot_result run_process
  create_guaranteed_restore_point ansible_dir inventory target_host oracle_os_owner patch_id
        timeout =
      do
        name ← restore_point_name patch_id
        outcome ←
            run_process env
              (snapshot_command ansible_dir inventory target_host oracle_os_owner name timeout)
        snapshot_result name timeout outcome

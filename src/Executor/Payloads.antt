-- ===== src/Executor/Payloads.antt =====
-- What `run_patch_workflow` writes into the audit log.
use oracle_patching.Prelude.{ℕ, String, ◌<>◌, true, false, [], ◌∷◌}
use oracle_patching.Text.{str_tail}
use oracle_patching.Text.Decimal.{decimal_ℤ}
use oracle_patching.Json.{Json, bool, num, str, object}
use oracle_patching.Runner
use oracle_patching.Runner.{PlaybookResult}
use oracle_patching.Snapshot
use oracle_patching.Snapshot.{SnapshotResult}
use oracle_patching.Approval.{ApprovalDecision}

unfoldable pub failed_validation : String → String → Json
failed_validation stage reason =
    object (("stage", str stage) ∷ ("ok", bool false) ∷ ("reason", str reason) ∷ [])

playbook_payload : ℕ → PlaybookResult → Json
unfolding str_tail
playbook_payload tail r = object (
    ("playbook", str r.playbook)
    ∷ ("ok", bool (Runner.succeeded r))
    ∷ ("returncode", num r.returncode)
    ∷ ("stdout_tail", str (str_tail tail r.stdout))
    ∷ [])

unfoldable pub dry_run_payload : PlaybookResult → Json
unfolding playbook_payload
dry_run_payload = playbook_payload 4000

unfoldable pub snapshot_payload : SnapshotResult → Json
unfolding str_tail
snapshot_payload s = object (
    ("restore_point", str s.restore_point)
    ∷ ("ok", bool (Snapshot.succeeded s))
    ∷ ("returncode", num s.returncode)
    ∷ ("stdout_tail", str (str_tail 2000 s.stdout))
    ∷ ("stderr_tail", str (str_tail 2000 s.stderr))
    ∷ [])

unfoldable pub decision_payload : ApprovalDecision → Json
decision_payload d = object (
    ("approved", bool d.approved)
    ∷ ("approver", str d.approver)
    ∷ ("timestamp", str d.timestamp)
    ∷ ("typed_confirmation", str d.typed_confirmation)
    ∷ [])

unfoldable pub apply_payload : PlaybookResult → Json
unfolding playbook_payload
apply_payload = playbook_payload 8000

unfoldable pub failed_apply_payload : PlaybookResult → PlaybookResult → Json
unfolding decimal_ℤ
failed_apply_payload r info = object (
    ("stage", str "apply")
    ∷ ("ok", bool false)
    ∷ ("reason", str ("apply playbook exited " <> decimal_ℤ r.returncode))
    ∷ ("rollback_procedure_printed", bool (Runner.succeeded info))
    ∷ [])

unfoldable pub applied_payload : String → Json
applied_payload restore_point =
    object (("stage", str "apply") ∷ ("ok", bool true) ∷ ("restore_point", str restore_point) ∷ [])

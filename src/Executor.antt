-- ===== src/Executor.antt =====
-- Patching_Agentic/executor/executor.py: one patch run, from the recommendation to the outcome.
mod Payloads
unfoldable pub use Payloads.{
  failed_validation, dry_run_payload, snapshot_payload, decision_payload, apply_payload,
  failed_apply_payload, applied_payload,
}
pub mod Stages
pub mod Refines
pub mod Conforms
pub mod ConformsApply
pub mod Clearance
pub mod Logs
pub mod Halts
pub mod Completed
pub mod Run
mod Tests
use oracle_patching.Prelude.{
  ℕ, suc, ◌-◌, ◌/◌, ◌<◌, code, String, ◌<>◌, ap, Bool, true, false, not, [], if◌then◌else◌, take,
}
use oracle_patching.Errors.{Exc, Result, ok, raise, str_exc, executor_halted, unknown_procedure}
use oracle_patching.Text.Decimal.{decimal_ℤ}
use oracle_patching.Text.Repr.{repr}
use oracle_patching.Audit.{
  recommendation, validation_result, dry_run_result, snapshot_event, approval_decision,
  execution_output,
}
use oracle_patching.Version.{Parsed, parsed, value_error, version_in_range}
use oracle_patching.Procedure.{ProcedureDefinition}
use oracle_patching.Registry
use oracle_patching.Registry.{ProcedureRegistry}
use oracle_patching.Plan.{PatchPlan, plan_json}
use oracle_patching.World.{Env, M, ◌>>=◌, ◌>>◌, pure, throw, print, audit_append}
use oracle_patching.Runner
use oracle_patching.Runner.{PlaybookResult, run_precheck, run_apply, run_rollback_info}
use oracle_patching.Snapshot
use oracle_patching.Snapshot.{SnapshotResult, create_guaranteed_restore_point}
use oracle_patching.Approval.{ApprovalDecision, build_report, request_confirmation}

pub record RunContext : Type 0 where
  pub ansible_dir : String
  pub inventory : String
  pub target_host : String
  pub oracle_os_owner : String
  pub subprocess_timeout_seconds : ℕ

abbrev pub unparsed_reason : String → String → String
unparsed_reason version message =
    "target_version " <> repr version <> " could not be parsed as a version: " <> message

abbrev pub range_reason : String → ProcedureDefinition → String
range_reason version p =
    "target_version " <> version <> " outside procedure " <> p.procedure_id
    <> "'s supported range [" <> p.min_supported_version <> ", " <> p.max_supported_version <> "]"

abbrev pub rejected_message : String
rejected_message = "Human approver did not confirm — stopping before apply. No changes were made."

abbrev pub dry_run_summary : ProcedureDefinition → SnapshotResult → String
dry_run_summary p s =
    p.precheck_playbook <> " exited 0; restore point " <> s.restore_point <> " created."

abbrev pub success_message : String → String
success_message restore_point =
    "Patch applied successfully. Restore point '" <> restore_point
    <> "' is still present — drop it once you're satisfied the patch is stable (it consumes Fast Recovery Area space)."

module _ (env : Env) where
  -- Writes the entry of a failed validation, and raises.
  unfoldable pub halt_validation : String → String → M Unit
  unfolding failed_validation
  halt_validation stage reason = do
    audit_append env validation_result (failed_validation stage reason)
    throw (executor_halted reason)

  -- `registry.get` and its handler.
  unfoldable pub look_up : Result ProcedureDefinition → M ProcedureDefinition
  unfolding failed_validation str_exc
  look_up (ok p) = pure p
  look_up (raise (unknown_procedure m)) = do
    audit_append env validation_result
        (failed_validation "registry_lookup" (str_exc (unknown_procedure m)))
    throw (executor_halted (str_exc (unknown_procedure m)))
  look_up (raise e) = throw e

  unfoldable pub check_version : String → ProcedureDefinition → Parsed Bool → M Unit
  unfolding halt_validation
  check_version version p (value_error m) =
      halt_validation "version_range" (unparsed_reason version m)
  check_version version p (parsed false) = halt_validation "version_range" (range_reason version p)
  check_version version p (parsed true) = pure tt

  module _ (ctx : RunContext) (p : ProcedureDefinition) where
    open ctx use {ansible_dir, inventory, target_host, oracle_os_owner, subprocess_timeout_seconds}

    unfoldable pub dry_run_gate : PlaybookResult → M Unit
    unfolding dry_run_payload
    dry_run_gate r = do
      audit_append env dry_run_result (dry_run_payload r)
      if Runner.succeeded r
          then pure tt
          else throw (
              executor_halted (
                "Precheck/dry-run failed (rc="
                <> decimal_ℤ r.returncode
                <> "); see audit log for output. Not proceeding to apply."))

    unfoldable pub dry_run : M Unit
    unfolding run_precheck dry_run_gate
    dry_run = do
      r ← run_precheck env ansible_dir p.precheck_playbook inventory [] subprocess_timeout_seconds
      dry_run_gate r

    unfoldable pub snapshot_gate : SnapshotResult → M SnapshotResult
    unfolding snapshot_payload
    snapshot_gate s = do
      audit_append env snapshot_event (snapshot_payload s)
      if Snapshot.succeeded s
          then pure s
          else throw (
              executor_halted (
                "Could not create pre-patch restore point (rc="
                <> decimal_ℤ s.returncode
                <> "); see audit log. Not proceeding to apply."))

    unfoldable pub take_snapshot : String → M SnapshotResult
    unfolding create_guaranteed_restore_point snapshot_gate
    take_snapshot patch_id = do
      s ←
          create_guaranteed_restore_point env ansible_dir inventory target_host oracle_os_owner
            patch_id subprocess_timeout_seconds
      snapshot_gate s

    unfoldable pub approval_gate : ApprovalDecision → M Unit
    unfolding decision_payload
    approval_gate d = do
      audit_append env approval_decision (decision_payload d)
      if d.approved then pure tt else throw (executor_halted rejected_message)

    unfoldable pub approve : PatchPlan → SnapshotResult → M Unit
    unfolding build_report request_confirmation approval_gate
    approve plan s = do
      d ← request_confirmation env (build_report plan p (dry_run_summary p s))
      approval_gate d

    -- The end of a failed apply, once the rollback procedure has been asked for.
    unfoldable pub report_failure : String → PlaybookResult → PlaybookResult → M Unit
    unfolding failed_apply_payload
    report_failure restore_point r info = do
      audit_append env validation_result (failed_apply_payload r info)
      print info.stdout
      throw (
          executor_halted (
            "Apply failed (rc="
            <> decimal_ℤ r.returncode
            <> "). Restore point '"
            <> restore_point
            <> "' is available. Rollback procedure printed above — a human decides whether and when to run it."))

    -- After a failed apply: the rollback procedure is printed, and nothing is undone.
    unfoldable pub surface_rollback : String → PlaybookResult → M Unit
    unfolding run_rollback_info report_failure
    surface_rollback restore_point r = do
      info ←
          run_rollback_info env ansible_dir p.rollback_info_playbook inventory []
            subprocess_timeout_seconds
      report_failure restore_point r info

    unfoldable pub report_success : String → M Unit
    unfolding applied_payload
    report_success restore_point = do
      audit_append env validation_result (applied_payload restore_point)
      print (success_message restore_point)

    unfoldable pub apply_outcome : String → PlaybookResult → M Unit
    unfolding surface_rollback report_success apply_payload
    apply_outcome restore_point r = do
      audit_append env execution_output (apply_payload r)
      if Runner.succeeded r then report_success restore_point else surface_rollback restore_point r

    unfoldable pub apply : String → String → M Unit
    unfolding run_apply apply_outcome
    apply patch_id restore_point = do
      r ←
          run_apply env ansible_dir p.apply_playbook inventory [] p.confirm_var_name patch_id
            subprocess_timeout_seconds
      apply_outcome restore_point r

  unfoldable pub run_patch_workflow : PatchPlan → RunContext → ProcedureRegistry → M Unit
  unfolding look_up check_version dry_run take_snapshot approve apply
  run_patch_workflow plan ctx registry = do
    audit_append env recommendation (plan_json plan)
    p ← look_up (Registry.get registry plan.procedure_id)
    check_version plan.target_version p
        (version_in_range plan.target_version p.min_supported_version p.max_supported_version)
    dry_run ctx p
    s ← take_snapshot ctx p plan.procedure_id
    approve ctx p plan s
    apply ctx p plan.procedure_id s.restore_point

-- ===== src/Executor/Logs.antt =====
-- A run only adds to the audit log, and keeps its chain, however it ends.
use oracle_patching.Prelude.{ℕ, String, Bool, true, false, List, [], ◌∷◌}
use oracle_patching.Errors.{Result, ok, raise, unknown_procedure}
use oracle_patching.Version.{Parsed, parsed, value_error}
use oracle_patching.Procedure.{ProcedureDefinition}
use oracle_patching.Registry.{ProcedureRegistry}
use oracle_patching.Plan.{PatchPlan}
use oracle_patching.World.{World, Env, Outcome, completed, timed_out, unavailable}
use oracle_patching.World.Extends.{Extends, Adds, adds_rules, Adds-pure, Adds-throw}
use oracle_patching.Runner.{
  PlaybookResult, Vars, playbook_result, run, run_precheck, run_apply, run_rollback_info,
}
use oracle_patching.Snapshot.{
  SnapshotResult, snapshot_result, restore_point_name, create_guaranteed_restore_point,
}
use oracle_patching.Approval.{ApprovalReport, print_override, request_confirmation}
use oracle_patching.Executor.{
  RunContext, look_up, check_version, dry_run_gate, dry_run, snapshot_gate, take_snapshot,
  approval_gate, approve, report_failure, surface_rollback, report_success, apply_outcome, apply,
  run_patch_workflow,
}

module _ (env : Env) where
  playbook_result-Adds :
      (playbook : String) (timeout : ℕ) (o : Outcome)
      → Adds env (playbook_result playbook timeout o)
  unfolding playbook_result
  playbook_result-Adds playbook timeout (completed rc out err) = Adds-pure env _
  playbook_result-Adds playbook timeout (timed_out out) = Adds-pure env _
  playbook_result-Adds playbook timeout (unavailable m) = Adds-throw env _

  run-Adds :
      (dir playbook inventory : String) (vars : Vars) (timeout : ℕ)
      → Adds env (run env dir playbook inventory vars timeout)
  unfolding run
  run-Adds dir playbook inventory vars timeout = search (adds_rules, playbook_result-Adds)

  run_apply-Adds :
      (dir playbook inventory : String) (vars : Vars) (name patch_id : String) (timeout : ℕ)
      → Adds env (run_apply env dir playbook inventory vars name patch_id timeout)
  unfolding run_apply
  run_apply-Adds dir playbook inventory vars name patch_id timeout = search (adds_rules, run-Adds)

  snapshot_result-Adds :
      (name : String) (timeout : ℕ) (o : Outcome) → Adds env (snapshot_result name timeout o)
  unfolding snapshot_result
  snapshot_result-Adds name timeout (completed rc out err) = Adds-pure env _
  snapshot_result-Adds name timeout (timed_out out) = Adds-pure env _
  snapshot_result-Adds name timeout (unavailable m) = Adds-throw env _

  create-Adds :
      (dir inventory host owner patch_id : String) (timeout : ℕ)
      → Adds env (create_guaranteed_restore_point env dir inventory host owner patch_id timeout)
  unfolding create_guaranteed_restore_point restore_point_name
  create-Adds dir inventory host owner patch_id timeout = search (adds_rules, snapshot_result-Adds)

  print_override-Adds : (missing : List String) → Adds env (print_override missing)
  unfolding print_override
  print_override-Adds [] = search adds_rules
  print_override-Adds (m ∷ ms) = search adds_rules

  pub request_confirmation-Adds :
      (report : ApprovalReport) → Adds env (request_confirmation env report)
  unfolding request_confirmation
  request_confirmation-Adds report = search (adds_rules, print_override-Adds) depth 9

  look_up-Adds : (r : Result ProcedureDefinition) → Adds env (look_up env r)
  unfolding look_up
  look_up-Adds (ok p) = search adds_rules
  look_up-Adds (raise (unknown_procedure m)) = search adds_rules
  look_up-Adds (raise e) = search adds_rules

  check_version-Adds :
      (version : String) (p : ProcedureDefinition) (r : Parsed Bool)
      → Adds env (check_version env version p r)
  unfolding check_version
  check_version-Adds version p (value_error m) = search adds_rules
  check_version-Adds version p (parsed true) = search adds_rules
  check_version-Adds version p (parsed false) = search adds_rules

  module _ (ctx : RunContext) (p : ProcedureDefinition) where
    dry_run-Adds : Adds env (dry_run env ctx p)
    unfolding dry_run dry_run_gate run_precheck
    dry_run-Adds = search (adds_rules, run-Adds)

    take_snapshot-Adds : (patch_id : String) → Adds env (take_snapshot env ctx p patch_id)
    unfolding take_snapshot snapshot_gate
    take_snapshot-Adds patch_id = search (adds_rules, create-Adds)

    approve-Adds : (plan : PatchPlan) (s : SnapshotResult) → Adds env (approve env ctx p plan s)
    unfolding approve approval_gate
    approve-Adds plan s = search (adds_rules, request_confirmation-Adds)

    surface_rollback-Adds :
        (restore_point : String) (r : PlaybookResult)
        → Adds env (surface_rollback env ctx p restore_point r)
    unfolding surface_rollback report_failure run_rollback_info
    surface_rollback-Adds restore_point r = search (adds_rules, run-Adds)

    report_success-Adds :
        (restore_point : String) → Adds env (report_success env ctx p restore_point)
    unfolding report_success
    report_success-Adds restore_point = search adds_rules

    apply-Adds :
        (patch_id restore_point : String) → Adds env (apply env ctx p patch_id restore_point)
    unfolding apply apply_outcome
    apply-Adds patch_id restore_point =
        search (adds_rules, run_apply-Adds, surface_rollback-Adds, report_success-Adds)

  pub run_patch_workflow-Adds :
      (plan : PatchPlan) (ctx : RunContext) (registry : ProcedureRegistry)
      → Adds env (run_patch_workflow env plan ctx registry)
  unfolding run_patch_workflow
  run_patch_workflow-Adds plan ctx registry =
      search
        (
          adds_rules, look_up-Adds, check_version-Adds, dry_run-Adds, take_snapshot-Adds,
          approve-Adds, apply-Adds,
        )
        depth 12

  -- However a run ends, it appends to the audit log exactly the entries that it logged, in their
  -- order, and if `verify_chain` accepted the log before the run, it accepts it afterwards.
  pub run_patch_workflow-Extends :
      (plan : PatchPlan) (ctx : RunContext) (registry : ProcedureRegistry) (w : World)
      → Extends env.sha256_hex w (run_patch_workflow env plan ctx registry w).1
  run_patch_workflow-Extends plan ctx registry w = (run_patch_workflow-Adds plan ctx registry).at w

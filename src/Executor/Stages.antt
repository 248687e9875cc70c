-- ===== src/Executor/Stages.antt =====
-- The run of one patch as an abstract machine: the stages, and the steps between them with the
-- events that each step adds, whatever the processes and the person at the terminal answer.
use oracle_patching.Prelude.{String, ◌≡◌, ◌≢◌, Bool, true, false, List, [], ◌∷◌, ◌++◌, All}
use oracle_patching.Errors.{ok}
use oracle_patching.Json.{Json}
use oracle_patching.Audit.{
  AuditEntry, EventType, event_name, recommendation, validation_result, dry_run_result,
  snapshot_event, approval_decision, execution_output,
}
use oracle_patching.Version.{Parsed, parsed, version_in_range}
use oracle_patching.Procedure.{ProcedureDefinition}
use oracle_patching.Registry
use oracle_patching.Registry.{ProcedureRegistry}
use oracle_patching.Plan.{PatchPlan, plan_json}
use oracle_patching.World.{Command, Event, ran, logged, printed, asked}
use oracle_patching.Runner
use oracle_patching.Runner.{PlaybookResult, playbook_command}
use oracle_patching.Snapshot
use oracle_patching.Snapshot.{SnapshotResult, snapshot_command}
use oracle_patching.Approval.{ApprovalDecision, confirmation_prompt}
use oracle_patching.Executor.{
  success_message, RunContext, failed_validation, dry_run_payload, snapshot_payload,
  decision_payload, apply_payload, failed_apply_payload, applied_payload,
}

pub data Stage : Type 0 where
  start recommended done halted crashed : Stage
  found in_range prechecked : ProcedureDefinition → Stage
  protected confirmed : ProcedureDefinition → SnapshotResult → Stage

-- An entry of the given type and payload.
pub record Records (e : AuditEntry) (t : EventType) (payload : Json) : Type 0 where
  pub typed : e.event_type ≡ event_name t
  pub holds : e.payload ≡ payload

module _ (ctx : RunContext) where
  open ctx use {ansible_dir, inventory, target_host, oracle_os_owner, subprocess_timeout_seconds}

  -- The four commands of a run.
  abbrev pub precheck_command : ProcedureDefinition → Command
  precheck_command p =
      playbook_command ansible_dir p.precheck_playbook inventory (("run_full_patch", "false") ∷ [])
        subprocess_timeout_seconds

  abbrev pub restore_point_command : String → Command
  restore_point_command name =
      snapshot_command ansible_dir inventory target_host oracle_os_owner name
        subprocess_timeout_seconds

  abbrev pub apply_command : ProcedureDefinition → String → Command
  apply_command p patch_id =
      playbook_command ansible_dir p.apply_playbook inventory ((p.confirm_var_name, patch_id) ∷ [])
        subprocess_timeout_seconds

  abbrev pub rollback_info_command : ProcedureDefinition → Command
  rollback_info_command p =
      playbook_command ansible_dir p.rollback_info_playbook inventory [] subprocess_timeout_seconds

-- Only text was printed.
abbrev pub IsPrint : Event → Type 0
IsPrint (printed t) = Unit
IsPrint _ = ⊥

module _ (plan : PatchPlan) (ctx : RunContext) (registry : ProcedureRegistry) where
  abbrev pub in_supported_range : ProcedureDefinition → Parsed Bool
  in_supported_range p =
      version_in_range plan.target_version p.min_supported_version p.max_supported_version

  pub data Step : Stage → List Event → Stage → Type 0 where
    recommend :
        (e : AuditEntry)
        → Records e recommendation (plan_json plan)
        → Step start (logged e ∷ []) recommended
    find :
        (p : ProcedureDefinition)
        → Registry.get registry plan.procedure_id ≡ ok p
        → Step recommended [] (found p)
    refuse_id :
        (e : AuditEntry) (reason : String)
        → Registry.contains registry plan.procedure_id ≡ false
        → Records e validation_result (failed_validation "registry_lookup" reason)
        → Step recommended (logged e ∷ []) halted
    accept_version :
        (p : ProcedureDefinition)
        → in_supported_range p ≡ parsed true
        → Step (found p) [] (in_range p)
    refuse_version :
        (p : ProcedureDefinition) (e : AuditEntry) (reason : String)
        → in_supported_range p ≢ parsed true
        → Records e validation_result (failed_validation "version_range" reason)
        → Step (found p) (logged e ∷ []) halted
    precheck_passes :
        (p : ProcedureDefinition) (r : PlaybookResult) (e : AuditEntry)
        → Runner.succeeded r ≡ true
        → Records e dry_run_result (dry_run_payload r)
        → Step (in_range p) (ran (precheck_command ctx p) ∷ logged e ∷ []) (prechecked p)
    precheck_fails :
        (p : ProcedureDefinition) (r : PlaybookResult) (e : AuditEntry)
        → Runner.succeeded r ≡ false
        → Records e dry_run_result (dry_run_payload r)
        → Step (in_range p) (ran (precheck_command ctx p) ∷ logged e ∷ []) halted
    precheck_crashes :
        (p : ProcedureDefinition) → Step (in_range p) (ran (precheck_command ctx p) ∷ []) crashed
    protect :
        (p : ProcedureDefinition) (s : SnapshotResult) (e : AuditEntry)
        → Snapshot.succeeded s ≡ true
        → Records e snapshot_event (snapshot_payload s)
        → Step
            (prechecked p)
            (ran (restore_point_command ctx s.restore_point) ∷ logged e ∷ [])
            (protected p s)
    protect_fails :
        (p : ProcedureDefinition) (s : SnapshotResult) (e : AuditEntry)
        → Snapshot.succeeded s ≡ false
        → Records e snapshot_event (snapshot_payload s)
        → Step
            (prechecked p)
            (ran (restore_point_command ctx s.restore_point) ∷ logged e ∷ [])
            halted
    protect_crashes :
        (p : ProcedureDefinition) (name : String)
        → Step (prechecked p) (ran (restore_point_command ctx name) ∷ []) crashed
    confirm :
        (p : ProcedureDefinition) (s : SnapshotResult) (d : ApprovalDecision) (e : AuditEntry)
        (shown es : List Event)
        → All IsPrint shown
        → d.approved ≡ true
        → d.typed_confirmation ≡ plan.target_version
        → Records e approval_decision (decision_payload d)
        → es ≡ shown ++ asked (confirmation_prompt plan.target_version) ∷ logged e ∷ []
        → Step (protected p s) es (confirmed p s)
    reject :
        (p : ProcedureDefinition) (s : SnapshotResult) (d : ApprovalDecision) (e : AuditEntry)
        (shown es : List Event)
        → All IsPrint shown
        → d.approved ≡ false
        → d.typed_confirmation ≢ plan.target_version
        → Records e approval_decision (decision_payload d)
        → es ≡ shown ++ asked (confirmation_prompt plan.target_version) ∷ logged e ∷ []
        → Step (protected p s) es halted
    input_ends :
        (p : ProcedureDefinition) (s : SnapshotResult) (shown es : List Event)
        → All IsPrint shown
        → es ≡ shown ++ asked (confirmation_prompt plan.target_version) ∷ []
        → Step (protected p s) es crashed
    apply_passes :
        (p : ProcedureDefinition) (s : SnapshotResult) (r : PlaybookResult) (e f : AuditEntry)
        → Runner.succeeded r ≡ true
        → Records e execution_output (apply_payload r)
        → Records f validation_result (applied_payload s.restore_point)
        → Step
            (confirmed p s)
            (ran (apply_command ctx p plan.procedure_id)
              ∷ logged e
              ∷ logged f
              ∷ printed (success_message s.restore_point)
              ∷ [])
            done
    apply_fails :
        (p : ProcedureDefinition) (s : SnapshotResult) (r info : PlaybookResult) (e f : AuditEntry)
        → Runner.succeeded r ≡ false
        → Records e execution_output (apply_payload r)
        → Records f validation_result (failed_apply_payload r info)
        → Step
            (confirmed p s)
            (ran (apply_command ctx p plan.procedure_id)
              ∷ logged e
              ∷ ran (rollback_info_command ctx p)
              ∷ logged f
              ∷ printed info.stdout
              ∷ [])
            halted
    apply_crashes :
        (p : ProcedureDefinition) (s : SnapshotResult)
        → Step (confirmed p s) (ran (apply_command ctx p plan.procedure_id) ∷ []) crashed
    rollback_info_crashes :
        (p : ProcedureDefinition) (s : SnapshotResult) (r : PlaybookResult) (e : AuditEntry)
        → Runner.succeeded r ≡ false
        → Records e execution_output (apply_payload r)
        → Step
            (confirmed p s)
            (ran (apply_command ctx p plan.procedure_id)
              ∷ logged e
              ∷ ran (rollback_info_command ctx p)
              ∷ [])
            crashed

  -- The steps of a run, first to last, with all their events.
  pub data Steps : Stage → List Event → Stage → Type 0 where
    stop : (s : Stage) → Steps s [] s
    step : {s t u : Stage} {es fs : List Event} → Step s es t → Steps t fs u → Steps s (es ++ fs) u

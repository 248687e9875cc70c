-- ===== src/Executor/Conforms.antt =====
-- Each part of `run_patch_workflow` takes a step of the machine.
use oracle_patching.Prelude.{
  ◌+◌, String, ◌≡◌, refl, sym, ap, ◌∙◌, subst, Bool, true, false, not, List, [], ◌∷◌, ◌++◌,
  append-nil, append_assoc, arith, if◌then◌else◌,
}
use oracle_patching.Json.{Json}
use oracle_patching.Errors.{Result, ok, raise, executor_halted, unknown_procedure, str_exc}
use oracle_patching.Audit.{
  AuditEntry, EventType, recommendation, validation_result, dry_run_result, snapshot_event,
  approval_decision, execution_output,
}
use oracle_patching.Audit
use oracle_patching.Version.{Parsed, parsed, value_error}
use oracle_patching.Procedure.{ProcedureDefinition}
use oracle_patching.Registry
use oracle_patching.Registry.{ProcedureRegistry}
use oracle_patching.Registry.Lookup.{is_unknown, is_ok, get-contains}
use oracle_patching.Plan.{PatchPlan}
use oracle_patching.World.{
  World, Env, M, ◌>>=◌, ◌>>◌, pure, throw, Event, ran, logged, Outcome, completed, timed_out,
  unavailable, record_event, run_process, audit_append, written,
}
use oracle_patching.Runner
use oracle_patching.Runner.{PlaybookResult, playbook_result, run, run_precheck, put_var}
use oracle_patching.Snapshot
use oracle_patching.Snapshot.{
  SnapshotResult, create_guaranteed_restore_point, restore_point_name, snapshot_result,
}
use oracle_patching.Executor.{
  RunContext, failed_validation, look_up, check_version, unparsed_reason, range_reason,
  dry_run_payload, dry_run_gate, dry_run, snapshot_payload, snapshot_gate, take_snapshot,
}
use oracle_patching.Executor.Stages.{
  Stage, recommended, halted, found, in_range, prechecked, protected, Step, Steps, stop, step,
  Records, find, refuse_id, accept_version, refuse_version, precheck_passes, precheck_fails,
  precheck_crashes, protect, protect_fails, protect_crashes, precheck_command,
  restore_point_command, in_supported_range,
}
use oracle_patching.Executor.Refines.{outcome, Refines}

module _ (plan : PatchPlan) (ctx : RunContext) (registry : ProcedureRegistry) where
  -- What a run of `m` in `w`, begun in `w0` at the stage `s`, has to show.
  abbrev pub Shows : {A : Type 0} → Stage → World → M A → World → (A → Stage) → Type 0
  Shows s w0 m w post =
      (es : List Event) × ((m w).1.events ≡ w0.events ++ es)
      × Steps plan ctx registry s es (outcome post (m w).0)

  pub one :
      {s t : Stage} {es : List Event}
      → Step plan ctx registry s es t
      → Steps plan ctx registry s es t
  one {s} {t} {es} st =
      subst (λ l. Steps plan ctx registry s l t) (append-nil es) (step st (stop t))

module _ (env : Env) (plan : PatchPlan) (ctx : RunContext) (registry : ProcedureRegistry) where
  -- An entry, and then a halt.
  pub halting :
      {A : Type 0} (t : EventType) (payload : Json) (message : String) {s : Stage} (f : A → Stage)
      (w0 w : World) (pre : List Event)
      → w.events ≡ w0.events ++ pre
      → ((e : AuditEntry)
          → Records e t payload
          → Steps plan ctx registry s (pre ++ logged e ∷ []) halted)
      → Shows plan ctx registry s w0
          (audit_append env t payload >> throw {A = A} (executor_halted message))
          w
          f
  unfolding audit_append Audit.append
  halting t payload message f w0 w pre added halts =
      let e = written env t payload w in
      (
        pre ++ logged e ∷ [],
        ap (λ l. l ++ logged e ∷ []) added ∙ append_assoc w0.events pre (logged e ∷ []),
        halts e (record { typed = refl; holds = refl }),
      )

  -- An entry, and then a value or a halt.
  pub guarded :
      {A : Type 0} (t : EventType) (payload : Json) (b : Bool) (a : A) (message : String)
      {s : Stage} (f : A → Stage) (w0 w : World) (pre : List Event)
      → w.events ≡ w0.events ++ pre
      → ((e : AuditEntry)
          → b ≡ true
          → Records e t payload
          → Steps plan ctx registry s (pre ++ logged e ∷ []) (f a))
      → ((e : AuditEntry)
          → b ≡ false
          → Records e t payload
          → Steps plan ctx registry s (pre ++ logged e ∷ []) halted)
      → Shows plan ctx registry s w0
          (audit_append env t payload >> (if b then pure a else throw (executor_halted message)))
          w
          f
  unfolding audit_append Audit.append
  guarded t payload true a message f w0 w pre added passes halts =
      let e = written env t payload w in
      (
        pre ++ logged e ∷ [],
        ap (λ l. l ++ logged e ∷ []) added ∙ append_assoc w0.events pre (logged e ∷ []),
        passes e refl (record { typed = refl; holds = refl }),
      )
  guarded t payload false a message f w0 w pre added passes halts =
      halting t payload message f w0 w pre added (λ e rec. halts e refl rec)

  look_up_from :
      (r : Result ProcedureDefinition)
      → Registry.get registry plan.procedure_id ≡ r
      → (is_unknown r ≡ not (Registry.contains registry plan.procedure_id))
      → (is_ok r ≡ Registry.contains registry plan.procedure_id)
      → (w : World) → Shows plan ctx registry recommended w (look_up env r) w found
  unfolding look_up
  look_up_from (ok p) e u k w = ([], sym (append-nil w.events), one plan ctx registry (find p e))
  look_up_from (raise (unknown_procedure m)) e u k w =
      halting validation_result
        (failed_validation "registry_lookup" (str_exc (unknown_procedure m)))
        (str_exc (unknown_procedure m)) found w w [] (sym (append-nil w.events))
        (λ x rec.
          one plan ctx registry (refuse_id x (str_exc (unknown_procedure m)) (ground arith) rec))
  look_up_from (raise x) e u k w = absurd (ground arith)

  pub look_up-Refines :
      Refines plan ctx registry recommended
        (look_up env (Registry.get registry plan.procedure_id))
        found
  look_up-Refines = record {
    at = λ w.
        let (u, k) = get-contains registry plan.procedure_id in
        look_up_from (Registry.get registry plan.procedure_id) refl u k w;
  }

  check_version_from :
      (p : ProcedureDefinition) (r : Parsed Bool)
      → in_supported_range plan ctx registry p ≡ r
      → (w : World)
      → Shows plan ctx registry
          (found p)
          w
          (check_version env plan.target_version p r)
          w
          (λ _. in_range p)
  unfolding check_version
  check_version_from p (value_error m) e w =
      halting validation_result
        (failed_validation "version_range" (unparsed_reason plan.target_version m))
        (unparsed_reason plan.target_version m) (λ _. in_range p) w w [] (sym (append-nil w.events))
        (λ x rec.
          one plan ctx registry
            (refuse_version p x (unparsed_reason plan.target_version m) (λ q. ground arith) rec))
  check_version_from p (parsed false) e w =
      halting validation_result
        (failed_validation "version_range" (range_reason plan.target_version p))
        (range_reason plan.target_version p) (λ _. in_range p) w w [] (sym (append-nil w.events))
        (λ x rec.
          one plan ctx registry
            (refuse_version p x (range_reason plan.target_version p) (λ q. ground arith) rec))
  check_version_from p (parsed true) e w =
      ([], sym (append-nil w.events), one plan ctx registry (accept_version p e))

  pub check_version-Refines :
      (p : ProcedureDefinition)
      → Refines plan ctx registry
          (found p)
          (check_version env plan.target_version p (in_supported_range plan ctx registry p))
          (λ _. in_range p)
  check_version-Refines p = record {
    at = λ w. check_version_from p (in_supported_range plan ctx registry p) refl w;
  }

  dry_run_gate_from :
      (p : ProcedureDefinition) (r : PlaybookResult) (w : World)
      → Shows plan ctx registry
          (in_range p)
          w
          (dry_run_gate env ctx p r)
          (record_event (ran (precheck_command ctx p)) w)
          (λ _. prechecked p)
  unfolding dry_run_gate
  dry_run_gate_from p r w =
      guarded dry_run_result (dry_run_payload r) (Runner.succeeded r) tt _ (λ _. prechecked p) w _
        (ran (precheck_command ctx p) ∷ []) refl
        (λ e h rec. one plan ctx registry (precheck_passes p r e h rec))
        (λ e h rec. one plan ctx registry (precheck_fails p r e h rec))

  dry_run_from :
      (p : ProcedureDefinition) (o : Outcome) (w : World)
      → Shows plan ctx registry
          (in_range p)
          w
          (playbook_result p.precheck_playbook ctx.subprocess_timeout_seconds o
            >>= dry_run_gate env ctx p)
          (record_event (ran (precheck_command ctx p)) w)
          (λ _. prechecked p)
  unfolding playbook_result
  dry_run_from p (completed rc out err) w = dry_run_gate_from p _ w
  dry_run_from p (timed_out out) w = dry_run_gate_from p _ w
  dry_run_from p (unavailable m) w =
      (ran (precheck_command ctx p) ∷ [], refl, one plan ctx registry (precheck_crashes p))

  pub dry_run-Refines :
      (p : ProcedureDefinition)
      → Refines plan ctx registry (in_range p) (dry_run env ctx p) (λ _. prechecked p)
  unfolding dry_run run_precheck run run_process put_var
  dry_run-Refines p = record {
    at = λ w. dry_run_from p (env.subprocess w.events (precheck_command ctx p)) w;
  }

  snapshot_gate_from :
      (p : ProcedureDefinition) (s : SnapshotResult) (w0 w : World)
      → w.events ≡ w0.events ++ ran (restore_point_command ctx s.restore_point) ∷ []
      → Shows plan ctx registry (prechecked p) w0 (snapshot_gate env ctx p s) w (protected p)
  unfolding snapshot_gate
  snapshot_gate_from p s w0 w added =
      guarded snapshot_event (snapshot_payload s) (Snapshot.succeeded s) s _ (protected p) w0 w
        (ran (restore_point_command ctx s.restore_point) ∷ []) added
        (λ e h rec. one plan ctx registry (protect p s e h rec))
        (λ e h rec. one plan ctx registry (protect_fails p s e h rec))

  take_snapshot_from :
      (p : ProcedureDefinition) (name : String) (o : Outcome) (w0 w : World)
      → w.events ≡ w0.events ++ ran (restore_point_command ctx name) ∷ []
      → Shows plan ctx registry
          (prechecked p)
          w0
          (snapshot_result name ctx.subprocess_timeout_seconds o >>= snapshot_gate env ctx p)
          w
          (protected p)
  unfolding snapshot_result
  take_snapshot_from p name (completed rc out err) w0 w added = snapshot_gate_from p _ w0 w added
  take_snapshot_from p name (timed_out out) w0 w added = snapshot_gate_from p _ w0 w added
  take_snapshot_from p name (unavailable m) w0 w added = (
    ran (restore_point_command ctx name) ∷ [],
    added,
    one plan ctx registry (protect_crashes p name),
  )

  pub take_snapshot-Refines :
      (p : ProcedureDefinition)
      → Refines plan ctx registry
          (prechecked p)
          (take_snapshot env ctx p plan.procedure_id)
          (protected p)
  unfolding take_snapshot create_guaranteed_restore_point restore_point_name run_process
  take_snapshot-Refines p = record {
    at = λ w.
        let name = Snapshot.name_at plan.procedure_id (env.stamp w.readings) in
        take_snapshot_from p name (env.subprocess w.events (restore_point_command ctx name)) w
          (record w {
            events = w.events ++ ran (restore_point_command ctx name) ∷ [];
            readings = w.readings + 1;
          })
          refl;
  }

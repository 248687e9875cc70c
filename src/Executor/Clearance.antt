-- ===== src/Executor/Clearance.antt =====
-- Which commands a run may have run, and what must stand in the audit log before an apply.
use oracle_patching.Prelude.{
  String, ◌≡◌, refl, sym, ap, ◌∙◌, subst, inl, true, List, [], ◌∷◌, ◌++◌, append-nil, append_assoc,
  All,
}
use oracle_patching.Errors.{Result, ok, raise, executor_halted}
use oracle_patching.Audit.{AuditEntry, Log, dry_run_result, snapshot_event, approval_decision}
use oracle_patching.Version.{parsed}
use oracle_patching.Procedure.{ProcedureDefinition}
use oracle_patching.Registry
use oracle_patching.Registry.{ProcedureRegistry}
use oracle_patching.Plan.{PatchPlan}
use oracle_patching.World.{World, Env, Command, Event, ran, logged, printed, asked}
use oracle_patching.World.Trace.{
  commands, entries, commands-append, entries-append, Some, Some-append_left, Some-append_right,
}
use oracle_patching.Runner
use oracle_patching.Runner.{PlaybookResult}
use oracle_patching.Snapshot
use oracle_patching.Snapshot.{SnapshotResult}
use oracle_patching.Approval.{ApprovalDecision}
use oracle_patching.Executor.{
  RunContext, dry_run_payload, snapshot_payload, decision_payload, run_patch_workflow,
}
use oracle_patching.Executor.Stages.{
  Stage, start, recommended, done, halted, crashed, found, in_range, prechecked, protected,
  confirmed, Step, Steps, stop, step, Records, IsPrint, recommend, find, refuse_id, accept_version,
  refuse_version, precheck_passes, precheck_fails, precheck_crashes, protect, protect_fails,
  protect_crashes, confirm, reject, input_ends, apply_passes, apply_fails, apply_crashes,
  rollback_info_crashes, precheck_command, restore_point_command, apply_command,
  rollback_info_command, in_supported_range,
}
use oracle_patching.Executor.Refines.{outcome}
use oracle_patching.Executor.Run.{run_patch_workflow-Steps}

pub after :
    (es fs : List Event) {cs : List Command}
    → commands es ≡ cs
    → commands (es ++ fs) ≡ cs ++ commands fs
after es fs c = commands-append es fs ∙ ap (λ l. l ++ commands fs) c

pub old :
    (P : AuditEntry → Type 0) (es fs : List Event)
    → Some P (entries es)
    → Some P (entries (es ++ fs))
old P es fs h =
    subst (Some P) (sym (entries-append es fs)) (Some-append_left P (entries es) (entries fs) h)

pub new :
    (P : AuditEntry → Type 0) (es fs : List Event)
    → Some P (entries fs)
    → Some P (entries (es ++ fs))
new P es fs h =
    subst (Some P) (sym (entries-append es fs)) (Some-append_right P (entries es) (entries fs) h)

commands-print : (shown fs : List Event) → All IsPrint shown → commands (shown ++ fs) ≡ commands fs
commands-print [] fs h = refl
commands-print (printed t ∷ shown) fs (_, h) = commands-print shown fs h
commands-print (ran c ∷ shown) fs (h, _) = absurd h
commands-print (logged e ∷ shown) fs (h, _) = absurd h
commands-print (asked t ∷ shown) fs (h, _) = absurd h

quiet :
    (shown fs rest : List Event)
    → All IsPrint shown
    → fs ≡ shown ++ rest
    → commands rest ≡ []
    → commands fs ≡ []
quiet shown fs rest prints split none_ran =
    ap commands split ∙ commands-print shown rest prints ∙ none_ran

-- A dry run that succeeded was logged.
abbrev pub DryRunPassed : Log → Type 0
DryRunPassed log =
    (r : PlaybookResult) × (Runner.succeeded r ≡ true)
    × Some (λ e. Records e dry_run_result (dry_run_payload r)) log

-- The restore point was made, and logged.
abbrev pub RestorePointMade : SnapshotResult → Log → Type 0
RestorePointMade s log =
    (Snapshot.succeeded s ≡ true) × Some (λ e. Records e snapshot_event (snapshot_payload s)) log

-- The target version was typed, and the approval logged.
abbrev pub Approved : String → Log → Type 0
Approved target_version log =
    (d : ApprovalDecision) × (d.approved ≡ true)
    × (d.typed_confirmation ≡ target_version)
    × Some (λ e. Records e approval_decision (decision_payload d)) log

module _ (plan : PatchPlan) (ctx : RunContext) (registry : ProcedureRegistry) where
  -- All that must hold of a run, with the log of its entries, that applies the procedure `p`.
  pub record IsCleared (p : ProcedureDefinition) (s : SnapshotResult) (log : Log) : Type 0 where
    pub registered : Registry.get registry plan.procedure_id ≡ ok p
    pub supported : in_supported_range plan ctx registry p ≡ parsed true
    pub dry_run_passed : DryRunPassed log
    pub restore_point_made : RestorePointMade s log
    pub approved : Approved plan.target_version log

  -- What a run has run.
  pub data Progress (es : List Event) : Type 0 where
    ran_nothing : commands es ≡ [] → Progress es
    ran_precheck :
        (p : ProcedureDefinition) → commands es ≡ precheck_command ctx p ∷ [] → Progress es
    ran_snapshot :
        (p : ProcedureDefinition) (name : String)
        → commands es ≡ precheck_command ctx p ∷ restore_point_command ctx name ∷ []
        → Progress es
    ran_apply :
        (p : ProcedureDefinition) (s : SnapshotResult)
        → commands es
          ≡ precheck_command ctx p
            ∷ restore_point_command ctx s.restore_point
            ∷ apply_command ctx p plan.procedure_id
            ∷ []
        → IsCleared p s (entries es)
        → Progress es
    ran_rollback_info :
        (p : ProcedureDefinition) (s : SnapshotResult)
        → commands es
          ≡ precheck_command ctx p
            ∷ restore_point_command ctx s.restore_point
            ∷ apply_command ctx p plan.procedure_id
            ∷ rollback_info_command ctx p
            ∷ []
        → IsCleared p s (entries es)
        → Progress es

  -- What holds of the history at each stage.
  abbrev pub At : Stage → List Event → Type 0
  At start es = commands es ≡ []
  At recommended es = commands es ≡ []
  At (found p) es = (commands es ≡ []) × (Registry.get registry plan.procedure_id ≡ ok p)
  At (in_range p) es =
      (commands es ≡ [])
      × (Registry.get registry plan.procedure_id ≡ ok p)
      × (in_supported_range plan ctx registry p ≡ parsed true)
  At (prechecked p) es =
      (commands es ≡ precheck_command ctx p ∷ [])
      × (Registry.get registry plan.procedure_id ≡ ok p)
      × (in_supported_range plan ctx registry p ≡ parsed true)
      × DryRunPassed (entries es)
  At (protected p s) es =
      (commands es ≡ precheck_command ctx p ∷ restore_point_command ctx s.restore_point ∷ [])
      × (Registry.get registry plan.procedure_id ≡ ok p)
      × (in_supported_range plan ctx registry p ≡ parsed true)
      × DryRunPassed (entries es)
      × RestorePointMade s (entries es)
  At (confirmed p s) es =
      (commands es ≡ precheck_command ctx p ∷ restore_point_command ctx s.restore_point ∷ [])
      × IsCleared p s (entries es)
  At done es = Progress es
  At halted es = Progress es
  At crashed es = Progress es

  pub IsCleared-append :
      (p : ProcedureDefinition) (s : SnapshotResult) (es fs : List Event)
      → IsCleared p s (entries es)
      → IsCleared p s (entries (es ++ fs))
  IsCleared-append p s es fs c =
      let (r, good, seen) = c.dry_run_passed in
      let (made, kept) = c.restore_point_made in
      let (d, yes_d, exact, shown) = c.approved in
      record {
        registered = c.registered;
        supported = c.supported;
        dry_run_passed = (r, good, old _ es fs seen);
        restore_point_made = (made, old _ es fs kept);
        approved = (d, yes_d, exact, old _ es fs shown);
      }

  pub Step-At :
      {s t : Stage} {fs : List Event} (es : List Event)
      → Step plan ctx registry s fs t
      → At s es
      → At t (es ++ fs)
  Step-At es (recommend e rec) c = after es _ c
  Step-At es (find p g) c = (after es [] c, g)
  Step-At es (refuse_id e reason g rec) c = ran_nothing (after es _ c)
  Step-At es (accept_version p v) (c, g) = (after es [] c, g, v)
  Step-At es (refuse_version p e reason v rec) (c, g) = ran_nothing (after es _ c)
  Step-At es (precheck_passes p r e h rec) (c, g, v) =
      (after es _ c, g, v, (r, h, new _ es _ (inl rec)))
  Step-At es (precheck_fails p r e h rec) (c, g, v) = ran_precheck p (after es _ c)
  Step-At es (precheck_crashes p) (c, g, v) = ran_precheck p (after es _ c)
  Step-At es (protect p s e h rec) (c, g, v, (r, h', seen)) =
      (after es _ c, g, v, (r, h', old _ es _ seen), (h, new _ es _ (inl rec)))
  Step-At es (protect_fails p s e h rec) (c, g, v, d) =
      ran_snapshot p s.restore_point (after es _ c)
  Step-At es (protect_crashes p name) (c, g, v, d) = ran_snapshot p name (after es _ c)
  Step-At es (confirm p s d e shown fs prints h exact rec split)
        (c, g, v, (r, h', seen), (m, kept)) =
      (
        after es fs c
            ∙ ap (λ l. precheck_command ctx p ∷ restore_point_command ctx s.restore_point ∷ l)
                (quiet shown fs _ prints split refl),
        record {
          registered = g;
          supported = v;
          dry_run_passed = (r, h', old _ es fs seen);
          restore_point_made = (m, old _ es fs kept);
          approved = (
            d,
            h,
            exact,
            new _ es fs (
                subst
                  (λ l. Some (λ x. Records x approval_decision (decision_payload d)) (entries l))
                  (sym split) (new _ shown _ (inl rec))),
          );
        },
      )
  Step-At es (reject p s d e shown fs prints h exact rec split) (c, g, v, _, _) =
      ran_snapshot p s.restore_point (
        after es fs c
        ∙ ap (λ l. precheck_command ctx p ∷ restore_point_command ctx s.restore_point ∷ l)
            (quiet shown fs _ prints split refl))
  Step-At es (input_ends p s shown fs prints split) (c, g, v, _, _) =
      ran_snapshot p s.restore_point (
        after es fs c
        ∙ ap (λ l. precheck_command ctx p ∷ restore_point_command ctx s.restore_point ∷ l)
            (quiet shown fs _ prints split refl))
  Step-At es (apply_passes p s r e f h rec rec') (c, k) =
      ran_apply p s (after es _ c) (IsCleared-append p s es _ k)
  Step-At es (apply_fails p s r info e f h rec rec') (c, k) =
      ran_rollback_info p s (after es _ c) (IsCleared-append p s es _ k)
  Step-At es (apply_crashes p s) (c, k) = ran_apply p s (after es _ c) (IsCleared-append p s es _ k)
  Step-At es (rollback_info_crashes p s r e h rec) (c, k) =
      ran_rollback_info p s (after es _ c) (IsCleared-append p s es _ k)

  Steps-At :
      {s t : Stage} {fs : List Event} (es : List Event)
      → Steps plan ctx registry s fs t
      → At s es
      → At t (es ++ fs)
  Steps-At {s} es (stop _) h = subst (At s) (sym (append-nil es)) h
  Steps-At {t} es (step {es = fs} {fs = gs} st p) h =
      subst (At t) (append_assoc es fs gs) (Steps-At (es ++ fs) p (Step-At es st h))

  Progress-of_At :
      (A : Type 0) (r : Result A) (es : List Event) → At (outcome (λ _. done) r) es → Progress es
  Progress-of_At A (ok a) es h = h
  Progress-of_At A (raise (executor_halted m)) es h = h
  Progress-of_At A (raise e) es h = h

module _ (env : Env) (plan : PatchPlan) (ctx : RunContext) (registry : ProcedureRegistry) where
  -- Whatever the processes and the person at the terminal answer, and however the run ends, it runs
  -- a first part of the sequence precheck, restore point, apply, rollback information, for one
  -- procedure `p`; and if it runs the apply, then `p` is what the registry holds under the plan's
  -- id, the target version lies in the range of `p`, and the entries that the run logged hold a
  -- dry run that succeeded, a restore point that was made, and an approval for which the target
  -- version was typed.
  pub run_patch_workflow-Progress :
      (w : World)
      → (es : List Event) × ((run_patch_workflow env plan ctx registry w).1.events ≡ w.events ++ es)
        × Progress plan ctx registry es
  run_patch_workflow-Progress w =
      let (es, added, steps) = run_patch_workflow-Steps env plan ctx registry w in
      (
        es,
        added,
        Progress-of_At plan ctx registry Unit _ es (Steps-At plan ctx registry [] steps refl),
      )

-- ===== src/Executor/Completed.antt =====
-- What a run has done when it returns.
use oracle_patching.Prelude.{
  ◌≡◌, refl, sym, subst, true, inl, List, [], ◌∷◌, ◌++◌, append-nil, append_assoc,
}
use oracle_patching.Errors.{Result, ok}
use oracle_patching.Audit.{AuditEntry, validation_result, execution_output}
use oracle_patching.Procedure.{ProcedureDefinition}
use oracle_patching.Registry.{ProcedureRegistry}
use oracle_patching.Plan.{PatchPlan}
use oracle_patching.World.{World, Env, Event}
use oracle_patching.World.Trace.{commands, entries, entries-append, Some}
use oracle_patching.Runner
use oracle_patching.Runner.{PlaybookResult}
use oracle_patching.Snapshot.{SnapshotResult}
use oracle_patching.Executor.{RunContext, apply_payload, applied_payload, run_patch_workflow}
use oracle_patching.Executor.Stages.{
  Stage, done, Step, Steps, stop, step, Records, precheck_command, restore_point_command,
  apply_command, apply_passes,
}
use oracle_patching.Executor.Refines.{outcome}
use oracle_patching.Executor.Run.{run_patch_workflow-Steps}
use oracle_patching.Executor.Clearance.{IsCleared, IsCleared-append, At, Step-At, after, new}
use oracle_patching.Executor.Halts.{IsSuccess, EndsWith, EndsWith-append, log_of_run}

-- The entry of a validated apply, with the restore point `s`.
abbrev pub Validates : SnapshotResult → AuditEntry → Type 0
Validates s e = Records e validation_result (applied_payload s.restore_point)

module _ (plan : PatchPlan) (ctx : RunContext) (registry : ProcedureRegistry) where
  -- The events of a completed run: the precheck, the restore point and the apply were run, and no
  -- other command; all that clears the apply holds; the apply succeeded and was logged; and the last
  -- entry validates it, and names the restore point that was made.
  pub record Completed (es : List Event) : Type 0 where
    pub p : ProcedureDefinition
    pub s : SnapshotResult
    pub ran_all :
        commands es
        ≡ precheck_command ctx p
          ∷ restore_point_command ctx s.restore_point
          ∷ apply_command ctx p plan.procedure_id
          ∷ []
    pub cleared : IsCleared plan ctx registry p s (entries es)
    pub applied :
        (r : PlaybookResult) × (Runner.succeeded r ≡ true)
        × Some (λ e. Records e execution_output (apply_payload r)) (entries es)
    pub validated : EndsWith (Validates s) (entries es)

  -- What holds of the history at each stage, the last one in full.
  abbrev Holds : Stage → List Event → Type 0
  Holds done es = Completed es
  Holds t es = At plan ctx registry t es

  Step-Holds :
      {s t : Stage} {fs : List Event} (es : List Event)
      → Step plan ctx registry s fs t
      → Holds s es
      → Holds t (es ++ fs)
  Step-Holds es (apply_passes p s r e f h rec rec') (c, k) = record {
    p = p;
    s = s;
    ran_all = after es _ c;
    cleared = IsCleared-append plan ctx registry p s es _ k;
    applied = (r, h, new _ es _ (inl rec));
    validated =
        subst (EndsWith (Validates s)) (sym (entries-append es _))
          (EndsWith-append (Validates s) (entries es) (e ∷ f ∷ []) (f, refl, rec'));
  }
  Step-Holds es st h = Step-At plan ctx registry es st h

  Steps-Holds :
      {s t : Stage} {fs : List Event} (es : List Event)
      → Steps plan ctx registry s fs t
      → Holds s es
      → Holds t (es ++ fs)
  Steps-Holds {s} es (stop _) h = subst (Holds s) (sym (append-nil es)) h
  Steps-Holds {t} es (step {es = fs} {fs = gs} st p) h =
      subst (Holds t) (append_assoc es fs gs) (Steps-Holds (es ++ fs) p (Step-Holds es st h))

  Completed-of_ok :
      (r : Result Unit) (es : List Event)
      → r ≡ ok tt
      → Holds (outcome (λ _. done) r) es
      → Completed es
  Completed-of_ok r es e h = subst (λ x. Holds (outcome (λ _. done) x) es) e h

  -- The world `w'` comes from `w` by a completed run, whose events and entries were added.
  pub record CompletedFrom (w w' : World) : Type 0 where
    pub added : List Event
    pub history : w'.events ≡ w.events ++ added
    pub logs : w'.log ≡ w.log ++ entries added
    pub completed : Completed added

  pub CompletedFrom-EndsWith : (w w' : World) → CompletedFrom w w' → EndsWith IsSuccess w'.log
  CompletedFrom-EndsWith w w' c =
      let (e, last, validated) = c.completed.validated in
      subst (EndsWith IsSuccess) (sym c.logs)
        (EndsWith-append IsSuccess w.log _ (e, last, (c.completed.s.restore_point, validated)))

module _ (env : Env) (plan : PatchPlan) (ctx : RunContext) (registry : ProcedureRegistry)
    (w : World) where
  -- When a run returns, it has run the precheck, the creation of a restore point and the apply, and
  -- no other command; the entries that it added to the audit log show that the dry run succeeded,
  -- that the restore point was made, that the target version was typed and that the apply succeeded;
  -- and the last of them is the validation of the apply, which names that restore point.
  pub completed_run-audited :
      (run_patch_workflow env plan ctx registry w).0 ≡ ok tt
      → CompletedFrom plan ctx registry w (run_patch_workflow env plan ctx registry w).1
  completed_run-audited h =
      let (es, history, steps) = run_patch_workflow-Steps env plan ctx registry w in
      record {
        added = es;
        history = history;
        logs = log_of_run env plan ctx registry w es history;
        completed =
            Completed-of_ok plan ctx registry _ es h (Steps-Holds plan ctx registry [] steps refl);
      }

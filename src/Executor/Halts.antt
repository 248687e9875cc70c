-- ===== src/Executor/Halts.antt =====
-- A run that is halted leaves the reason at the end of the audit log.
use oracle_patching.Prelude.{
  String, ◌≡◌, refl, sym, ap, ◌∙◌, subst, false, some, List, [], ◌∷◌, ◌++◌, append-nil, get_last?,
  get_last?-append,
}
use mathlib.Core.List.{append_cancel_left}
use oracle_patching.Errors.{Result, raise, executor_halted}
use oracle_patching.Audit.{
  AuditEntry, Log, validation_result, dry_run_result, snapshot_event, approval_decision,
}
use oracle_patching.Registry.{ProcedureRegistry}
use oracle_patching.Plan.{PatchPlan}
use oracle_patching.World.{World, Env, Event, logged, asked}
use oracle_patching.World.Trace.{entries, entries-append}
use oracle_patching.Runner
use oracle_patching.Runner.{PlaybookResult}
use oracle_patching.Snapshot
use oracle_patching.Snapshot.{SnapshotResult}
use oracle_patching.Approval.{ApprovalDecision}
use oracle_patching.Executor.{
  RunContext, failed_validation, dry_run_payload, snapshot_payload, decision_payload,
  failed_apply_payload, applied_payload, run_patch_workflow,
}
use oracle_patching.Executor.Stages.{
  Stage, start, done, halted, Step, Steps, stop, step, Records, recommend, find, refuse_id,
  accept_version, refuse_version, precheck_passes, precheck_fails, precheck_crashes, protect,
  protect_fails, protect_crashes, confirm, reject, input_ends, apply_passes, apply_fails,
  apply_crashes, rollback_info_crashes,
}
use oracle_patching.Executor.Refines.{outcome}
use oracle_patching.Executor.Run.{run_patch_workflow-Steps}
use oracle_patching.Executor.Logs.{run_patch_workflow-Extends}

-- An entry that says why a run went no further.
pub data IsRefusal (e : AuditEntry) : Type 0 where
  failed_check :
      (stage reason : String)
      → Records e validation_result (failed_validation stage reason)
      → IsRefusal e
  failed_dry_run :
      (r : PlaybookResult)
      → Runner.succeeded r ≡ false
      → Records e dry_run_result (dry_run_payload r)
      → IsRefusal e
  failed_snapshot :
      (s : SnapshotResult)
      → Snapshot.succeeded s ≡ false
      → Records e snapshot_event (snapshot_payload s)
      → IsRefusal e
  no_approval :
      (d : ApprovalDecision)
      → d.approved ≡ false
      → Records e approval_decision (decision_payload d)
      → IsRefusal e
  failed_apply :
      (r info : PlaybookResult)
      → Runner.succeeded r ≡ false
      → Records e validation_result (failed_apply_payload r info)
      → IsRefusal e

-- The last entry of a completed run.
abbrev pub IsSuccess : AuditEntry → Type 0
IsSuccess e = (restore_point : String) × Records e validation_result (applied_payload restore_point)

-- The last entry of a log satisfies `P`.
abbrev pub EndsWith : (AuditEntry → Type 0) → Log → Type 0
EndsWith P log = (e : AuditEntry) × (get_last? log ≡ some e) × P e

get_last?-of_append :
    (xs ys : Log) (y : AuditEntry) → get_last? ys ≡ some y → get_last? (xs ++ ys) ≡ some y
get_last?-of_append [] ys y h = h
get_last?-of_append (x ∷ []) [] y h = cc
get_last?-of_append (x ∷ []) (z ∷ zs) y h = h
get_last?-of_append (x ∷ (w ∷ xs)) ys y h = get_last?-of_append (w ∷ xs) ys y h

pub EndsWith-append :
    (P : AuditEntry → Type 0) (xs ys : Log) → EndsWith P ys → EndsWith P (xs ++ ys)
EndsWith-append P xs ys (e, last, p) = (e, get_last?-of_append xs ys e last, p)

-- What must be seen at the end of a run.
abbrev Ends : Stage → List Event → Type 0
Ends halted es = EndsWith IsRefusal (entries es)
Ends _ es = Unit

reject-entries :
    (shown es : List Event) (p : String) (e : AuditEntry)
    → es ≡ shown ++ asked p ∷ logged e ∷ []
    → entries es ≡ entries shown ++ e ∷ []
reject-entries shown es p e split = ap entries split ∙ entries-append shown _

module _ (plan : PatchPlan) (ctx : RunContext) (registry : ProcedureRegistry) where
  Step-Ends : {s t : Stage} {es : List Event} → Step plan ctx registry s es t → Ends t es
  Step-Ends (recommend e rec) = tt
  Step-Ends (find p g) = tt
  Step-Ends (refuse_id e reason g rec) = (e, refl, failed_check "registry_lookup" reason rec)
  Step-Ends (accept_version p v) = tt
  Step-Ends (refuse_version p e reason v rec) = (e, refl, failed_check "version_range" reason rec)
  Step-Ends (precheck_passes p r e h rec) = tt
  Step-Ends (precheck_fails p r e h rec) = (e, refl, failed_dry_run r h rec)
  Step-Ends (precheck_crashes p) = tt
  Step-Ends (protect p s e h rec) = tt
  Step-Ends (protect_fails p s e h rec) = (e, refl, failed_snapshot s h rec)
  Step-Ends (protect_crashes p name) = tt
  Step-Ends (confirm p s d e shown es prints h exact rec split) = tt
  Step-Ends (reject p s d e shown es prints h exact rec split) =
      subst (EndsWith IsRefusal) (sym (reject-entries shown es _ e split))
        (e, get_last?-append (entries shown) e, no_approval d h rec)
  Step-Ends (input_ends p s shown es prints split) = tt
  Step-Ends (apply_passes p s r e f h rec rec') = tt
  Step-Ends (apply_fails p s r info e f h rec rec') = (f, refl, failed_apply r info h rec')
  Step-Ends (apply_crashes p s) = tt
  Step-Ends (rollback_info_crashes p s r e h rec) = tt

  Ends-append : (t : Stage) (es fs : List Event) → Ends t fs → Ends t (es ++ fs)
  Ends-append halted es fs h =
      subst (EndsWith IsRefusal) (sym (entries-append es fs))
        (EndsWith-append IsRefusal (entries es) (entries fs) h)
  Ends-append _ es fs h = tt

  Steps-Ends :
      {s t u : Stage} {es fs : List Event}
      → Step plan ctx registry s es t
      → Steps plan ctx registry t fs u
      → Ends u (es ++ fs)
  Steps-Ends {u} {es} st (stop _) = subst (Ends u) (sym (append-nil es)) (Step-Ends st)
  Steps-Ends {u} {es} st (step {es = fs} {fs = gs} st' p) =
      Ends-append u es (fs ++ gs) (Steps-Ends st' p)

  start-Ends :
      {s u : Stage} {es : List Event} → s ≡ start → Steps plan ctx registry s es u → Ends u es
  start-Ends {s} e (stop _) = subst (λ t. Ends t []) (sym e) tt
  start-Ends e (step st p) = Steps-Ends st p

  Ends-halted :
      (r : Result Unit) (m : String) (es : List Event)
      → r ≡ raise (executor_halted m)
      → Ends (outcome (λ _. done) r) es
      → EndsWith IsRefusal (entries es)
  Ends-halted r m es e h = subst (λ x. Ends (outcome (λ _. done) x) es) e h

module _ (env : Env) (plan : PatchPlan) (ctx : RunContext) (registry : ProcedureRegistry)
    (w : World) where
  abbrev run : Result (Unit {0}) × World
  run = run_patch_workflow env plan ctx registry w

  -- The entries that a run logs, at the end of the log.
  pub log_of_run :
      (es : List Event) → run.1.events ≡ w.events ++ es → run.1.log ≡ w.log ++ entries es
  log_of_run es h =
      let x = run_patch_workflow-Extends env plan ctx registry w in
      x.logs
      ∙ ap (λ l. w.log ++ entries l) (append_cancel_left w.events x.added es (sym x.history ∙ h))

  -- The entries that the run added to the log end with one that satisfies `P`.
  abbrev pub AddsEndingWith : (AuditEntry → Type 0) → Type 0
  AddsEndingWith P = (es : Log) × (run.1.log ≡ w.log ++ es) × EndsWith P es

  -- When a run raises ExecutorHaltedError, the last entry of the audit log is one that this run
  -- wrote, and it records the failure that stopped the run: a failed registry lookup or version
  -- check, a dry run or a snapshot that failed, an approval that was not given, or a failed apply.
  pub halted_run-audited :
      (m : String) → run.0 ≡ raise (executor_halted m) → AddsEndingWith IsRefusal
  halted_run-audited m h =
      let (es, added, steps) = run_patch_workflow-Steps env plan ctx registry w in
      (
        entries es,
        log_of_run es added,
        Ends-halted plan ctx registry run.0 m es h (start-Ends plan ctx registry refl steps),
      )

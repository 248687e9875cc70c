-- ===== src/Main/Outcomes.antt =====
-- How the recorded outcome answers to the run.
use oracle_patching.Prelude.{
  ◌+◌, String, ◌≡◌, refl, sym, ap, ◌∙◌, subst, Bool, true, false, str_eq, eq_iff, if◌then◌else◌,
}
use oracle_patching.Text.{contains}
use oracle_patching.Errors.{Result, ok, raise, executor_halted}
use oracle_patching.Registry.{ProcedureRegistry}
use oracle_patching.Plan.{PatchPlan}
use oracle_patching.World.{World, Env}
use oracle_patching.Executor.{RunContext, run_patch_workflow}
use oracle_patching.Executor.Completed.{CompletedFrom, completed_run-audited}
use oracle_patching.Main.{outcome_of, exit_status, report_halt, run_and_record}

halted_outcome :
    (rejected : Bool)
    → str_eq (if rejected then "REJECTED_AT_APPROVAL" else "FAILED") "SUCCESS" ≡ false
halted_outcome true = refl
halted_outcome false = refl

outcome_of-success : (r : Result (Unit {0})) → str_eq (outcome_of r) "SUCCESS" ≡ true → r ≡ ok tt
unfolding outcome_of
outcome_of-success (ok u) h = refl
outcome_of-success (raise (executor_halted m)) h =
    let e : true ≡ false = sym h ∙ halted_outcome (contains "did not confirm" m) in cc
outcome_of-success (raise e) h = cc

CompletedFrom-report_halt :
    (plan : PatchPlan) (ctx : RunContext) (registry : ProcedureRegistry) (w w' : World)
    (r : Result (Unit {0}))
    → r ≡ ok tt
    → CompletedFrom plan ctx registry w w'
    → CompletedFrom plan ctx registry w (report_halt r (record w' { readings = w'.readings + 1 }))
CompletedFrom-report_halt plan ctx registry w w' r returned c =
    let after : World = record w' { readings = w'.readings + 1 } in
    subst (λ x. CompletedFrom plan ctx registry w (report_halt x after)) (sym returned)
      (record { added = c.added; history = c.history; logs = c.logs; completed = c.completed })

-- If the execution is recorded as a success, then `main` returns 0, and its run completed: it ran the
-- precheck, the creation of a restore point and the apply, and no other command; the entries that it
-- added to the audit log show that the dry run succeeded, that the restore point was made, that the
-- target version was typed and that the apply succeeded; and the last of them is the validation of
-- the apply, which names that restore point.
pub run_and_record-audited :
    (env : Env) (plan : PatchPlan) (ctx : RunContext) (registry : ProcedureRegistry)
    (started_at : String) (w : World)
    → (run_and_record env plan ctx registry started_at w).1.outcome ≡ "SUCCESS"
    → ((run_and_record env plan ctx registry started_at w).0 ≡ ok 0)
      × CompletedFrom plan ctx registry w (run_and_record env plan ctx registry started_at w).2
unfolding run_and_record
run_and_record-audited env plan ctx registry started_at w h =
    let r : Result (Unit {0}) = (run_patch_workflow env plan ctx registry w).0 in
    let returned : r ≡ ok tt = outcome_of-success r ((eq_iff (outcome_of r) "SUCCESS").1 h) in
    (
      ap exit_status returned,
      CompletedFrom-report_halt plan ctx registry w (run_patch_workflow env plan ctx registry w).1 r
          returned (completed_run-audited env plan ctx registry w returned),
    )

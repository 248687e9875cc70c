-- ===== src/Executor/Run.antt =====
-- A whole run of `run_patch_workflow` is a run of the machine.
use oracle_patching.Prelude.{◌≡◌, refl, List, [], ◌∷◌, ◌++◌}
use oracle_patching.Audit.{AuditEntry, recommendation}
use oracle_patching.Audit
use oracle_patching.Registry.{ProcedureRegistry}
use oracle_patching.Plan.{PatchPlan, plan_json}
use oracle_patching.World.{World, Env, Event, logged, audit_append, written}
use oracle_patching.Executor.{RunContext, run_patch_workflow}
use oracle_patching.Executor.Stages.{
  start, recommended, done, found, in_range, prechecked, protected, confirmed, Steps, recommend,
}
use oracle_patching.Executor.Refines.{outcome, Refines, Refines-bind}
use oracle_patching.Executor.Conforms.{
  one, look_up-Refines, check_version-Refines, dry_run-Refines, take_snapshot-Refines,
}
use oracle_patching.Executor.ConformsApply.{approve-Refines, apply-Refines}

module _ (env : Env) (plan : PatchPlan) (ctx : RunContext) (registry : ProcedureRegistry) where
  recommend-Refines :
      Refines plan ctx registry start
        (audit_append env recommendation (plan_json plan))
        (λ _. recommended)
  unfolding audit_append Audit.append
  recommend-Refines = record {
    at = λ w.
        let e = written env recommendation (plan_json plan) w in
        (
          logged e ∷ [],
          refl,
          one plan ctx registry (recommend e (record { typed = refl; holds = refl })),
        );
  }

  run_patch_workflow-Refines :
      Refines plan ctx registry start (run_patch_workflow env plan ctx registry) (λ _. done)
  unfolding run_patch_workflow
  run_patch_workflow-Refines =
      Refines-bind plan ctx registry _ _ (λ _. recommended) (λ _. done) recommend-Refines
        λ _.
          Refines-bind plan ctx registry _ _ found (λ _. done)
            (look_up-Refines env plan ctx registry)
            λ p.
              Refines-bind plan ctx registry _ _ (λ _. in_range p) (λ _. done)
                (check_version-Refines env plan ctx registry p)
                λ _.
                  Refines-bind plan ctx registry _ _ (λ _. prechecked p) (λ _. done)
                    (dry_run-Refines env plan ctx registry p)
                    λ _.
                      Refines-bind plan ctx registry _ _ (protected p) (λ _. done)
                        (take_snapshot-Refines env plan ctx registry p)
                        λ s.
                          Refines-bind plan ctx registry _ _ (λ _. confirmed p s) (λ _. done)
                            (approve-Refines env plan ctx registry p s)
                            λ _. apply-Refines env plan ctx registry p s

  -- From every world and in every surroundings, a run adds to the history the events of steps of the
  -- machine, from `start` to `done` if it returns, to `halted` if it raises ExecutorHaltedError, and
  -- to `crashed` if it raises anything else.
  pub run_patch_workflow-Steps :
      (w : World)
      → (es : List Event) × ((run_patch_workflow env plan ctx registry w).1.events ≡ w.events ++ es)
        × Steps plan ctx registry start es
            (outcome (λ _. done) (run_patch_workflow env plan ctx registry w).0)
  run_patch_workflow-Steps w = run_patch_workflow-Refines.at w

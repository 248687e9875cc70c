-- ===== src/Executor/Tests.antt =====
-- Runs of the workflow on the samples: one that completes, and one that is refused.
use oracle_patching.Prelude.{◌≡◌, refl, List, [], ◌++◌}
use oracle_patching.Errors.{ok, raise, executor_halted}
use oracle_patching.Registry.{get}
use oracle_patching.Version.{version_in_range}
use oracle_patching.World.{Event, audit_append}
use oracle_patching.World.Extends.{Extends}
use oracle_patching.Executor.{run_patch_workflow}
use oracle_patching.Executor.Stages.{Steps, start, done}
use oracle_patching.Executor.Refines.{outcome}
use oracle_patching.Executor.Run.{run_patch_workflow-Steps}
use oracle_patching.Executor.Clearance.{Progress, run_patch_workflow-Progress}
use oracle_patching.Executor.Logs.{run_patch_workflow-Extends}
use oracle_patching.Executor.Halts.{IsRefusal, AddsEndingWith, halted_run-audited}
use oracle_patching.Executor.Completed.{CompletedFrom, completed_run-audited}
use oracle_patching.Samples.{
  sample_registry, sample_plan, unknown_plan, sample_context, sample_env, sample_world,
}

sample_completes :
    (run_patch_workflow sample_env sample_plan sample_context sample_registry sample_world).0
    ≡ ok tt
unfolding run_patch_workflow audit_append get version_in_range
sample_completes = refl

unknown_halts :
    (run_patch_workflow sample_env unknown_plan sample_context sample_registry sample_world).0
    ≡ raise (
        executor_halted
          "\"'drop_database' is not an allow-listed procedure_id. Known: ['oracle_19c_ru_patch']\"")
unfolding run_patch_workflow audit_append get
unknown_halts = refl

run_patch_workflow-Progress_example :
    (es : List Event) × ((run_patch_workflow sample_env sample_plan sample_context sample_registry
        sample_world).1.events
      ≡ [] ++ es)
    × Progress sample_plan sample_context sample_registry es
run_patch_workflow-Progress_example =
    run_patch_workflow-Progress sample_env sample_plan sample_context sample_registry sample_world

run_patch_workflow-Steps_example :
    (es : List Event) × ((run_patch_workflow sample_env sample_plan sample_context sample_registry
        sample_world).1.events
      ≡ [] ++ es)
    × Steps sample_plan sample_context sample_registry start es (
        outcome
          (λ _. done)
          (run_patch_workflow sample_env sample_plan sample_context sample_registry sample_world).0)
run_patch_workflow-Steps_example =
    run_patch_workflow-Steps sample_env sample_plan sample_context sample_registry sample_world

run_patch_workflow-Extends_example :
    Extends
      (λ s. s)
      sample_world
      (run_patch_workflow sample_env sample_plan sample_context sample_registry sample_world).1
run_patch_workflow-Extends_example =
    run_patch_workflow-Extends sample_env sample_plan sample_context sample_registry sample_world

halted_run-audited_example :
    AddsEndingWith sample_env unknown_plan sample_context sample_registry sample_world IsRefusal
halted_run-audited_example =
    halted_run-audited sample_env unknown_plan sample_context sample_registry sample_world _
      unknown_halts

completed_run-audited_example :
    CompletedFrom sample_plan sample_context sample_registry sample_world
      (run_patch_workflow sample_env sample_plan sample_context sample_registry sample_world).1
completed_run-audited_example =
    completed_run-audited sample_env sample_plan sample_context sample_registry sample_world
      sample_completes

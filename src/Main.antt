-- ===== src/Main.antt =====
-- Patching_Agentic/run_patch.py: the end of `main`, from the plan on: the run, its exit status and the
-- record of the execution, which is written whichever way the run ends.
pub mod Outcomes
pub mod Pipeline
pub mod Zero
pub mod Gates
mod Tests
use oracle_patching.Prelude.{ℕ, ◌+◌, ◌-◌, ◌/◌, ◌<◌, String, ◌<>◌, not, if◌then◌else◌}
use oracle_patching.Text.{contains}
use oracle_patching.Errors.{Exc, Result, ok, raise, executor_halted}
use oracle_patching.Registry.{ProcedureRegistry}
use oracle_patching.Plan.{PatchPlan}
use oracle_patching.World.{World, Env, record_event, printed}
use oracle_patching.Executor.{RunContext, run_patch_workflow}

-- The arguments of `record_execution` but for the database; times are in their ISO form.
pub record Execution : Type 0 where
  pub target : String
  pub procedure_id : String
  pub started_at : String
  pub ended_at : String
  pub outcome : String

-- The value of `outcome` when `finally` is reached.
unfoldable pub outcome_of : Result (Unit {0}) → String
unfolding contains
outcome_of (ok u) = "SUCCESS"
outcome_of (raise (executor_halted m)) =
    if contains "did not confirm" m then "REJECTED_AT_APPROVAL" else "FAILED"
outcome_of (raise e) = "FAILED"

-- What `main` returns: only ExecutorHaltedError is handled.
abbrev pub exit_status : Result (Unit {0}) → Result ℕ
exit_status (ok u) = ok 0
exit_status (raise (executor_halted m)) = ok 1
exit_status (raise e) = raise e

-- What is printed of a halted run.
abbrev pub report_halt : Result (Unit {0}) → World → World
report_halt (raise (executor_halted m)) w = record_event (printed ("Run halted: " <> m)) w
report_halt r w = w

module _ (env : Env) (plan : PatchPlan) (ctx : RunContext) (registry : ProcedureRegistry) where
  -- The result of `main`, the execution that was recorded, and the world.
  unfoldable pub run_and_record : String → World → Result ℕ × Execution × World
  unfolding outcome_of run_patch_workflow
  run_and_record started_at w =
      let (r, after) = run_patch_workflow env plan ctx registry w in
      (
        exit_status r,
        record {
          target = ctx.target_host;
          procedure_id = plan.procedure_id;
          started_at = started_at;
          ended_at = env.isoformat after.readings;
          outcome = outcome_of r;
        },
        report_halt r (record after { readings = after.readings + 1 }),
      )

-- ===== src/Main/Zero.antt =====
-- When `main` returns 0.
use oracle_patching.Prelude.{
  ℕ, String, ◌≡◌, refl, ap, ◌∙◌, ◌⊎◌, inl, inr, Option, none, some, List, [], ◌∷◌, ◌++◌, Bool-cases,
  get_last?, get_last?-append,
}
use oracle_patching.Prelude.Dict.{has}
use oracle_patching.Json.{Json}
use oracle_patching.Errors.{Result, ok, raise, executor_halted, scan_failed}
use oracle_patching.Registry.{ProcedureRegistry}
use oracle_patching.Plan.{PatchPlan}
use oracle_patching.World.{World, Env}
use oracle_patching.Executor.Halts.{IsSuccess, EndsWith}
use oracle_patching.Executor.Completed.{CompletedFrom-EndsWith}
use oracle_patching.Scanner.Scan.{scan}
use oracle_patching.Retrieval.{Payload}
use oracle_patching.Agent.{Proposal, proposed, escalated, crashed}
use oracle_patching.Store.{
  ExecutionArgs, ExecutionRow, Tables, Transaction, committed, foreign_key_violation, execution_row,
  record_execution,
}
use oracle_patching.Main.{outcome_of, exit_status, run_and_record}
use oracle_patching.Main.Outcomes.{run_and_record-audited}
use oracle_patching.Main.Pipeline.{
  Args, Deployment, Ended, execution_args, settled, context, run_plan, on_proposal, on_hits,
  on_oracle_home, on_scan, on_cdbs, on_registry, main,
}

-- The audit log ends with a validated apply, and the history with its execution on the target.
pub record IsPatched (target : String) (after : World) (t : Tables) : Type 0 where
  pub row : ExecutionRow
  pub last : get_last? t.history ≡ some row
  pub succeeded : row.outcome ≡ "SUCCESS"
  pub on_target : row.target ≡ target
  pub audited : EndsWith IsSuccess after.log

settled-zero : (r : Result ℕ) (x : Transaction) → settled r x ≡ ok 0 → (r ≡ ok 0) × (x ≡ committed)
settled-zero r committed h = (h, refl)
settled-zero r (foreign_key_violation target) h = cc

exit_status-zero : (r : Result (Unit {0})) → exit_status r ≡ ok 0 → outcome_of r ≡ "SUCCESS"
unfolding outcome_of
exit_status-zero (ok u) h = refl
exit_status-zero (raise (executor_halted m)) h = cc
exit_status-zero (raise e) h = cc

record_execution-committed :
    (now : String) (a : ExecutionArgs) (t : Tables)
    → (record_execution now a t).0 ≡ committed
    → (record_execution now a t).1.history ≡ t.history ++ execution_row t.serial a ∷ []
unfolding record_execution
record_execution-committed now a t h = elim (Bool-cases (has a.target t.states)) [
  | inl known ↦ rw known refl
  | inr unknown ↦ let x = rw unknown at h in cc
]

module _ (env : Env) (d : Deployment) (args : Args) where
  -- What an end with the status 0 says.
  abbrev Zero : Ended → Type 0
  Zero end = end.0 ≡ ok 0 → IsPatched args.target end.1 end.2

  run_plan-Zero :
      (registry : ProcedureRegistry) (started_at : String) (plan : PatchPlan) (w : World)
      (t : Tables)
      → Zero (run_plan env d args registry started_at plan w t)
  unfolding run_plan run_and_record execution_args
  run_plan-Zero registry started_at plan w t h =
      let (returned, stored) = settled-zero _ _ h in
      let success = exit_status-zero _ returned in
      let grown = record_execution-committed _ _ t stored in
      record {
        row =
            execution_row t.serial (
              execution_args
                (run_and_record env plan (context env d args) registry started_at w).1);
        last = ap get_last? grown ∙ get_last?-append t.history _;
        succeeded = success;
        on_target = refl;
        audited =
            CompletedFrom-EndsWith plan _ registry w _
              (run_and_record-audited env plan _ registry started_at w success).1;
      }

  on_proposal-Zero :
      (registry : ProcedureRegistry) (started_at : String) (p : Proposal) (w : World) (t : Tables)
      → Zero (on_proposal env d args registry started_at p w t)
  unfolding on_proposal
  on_proposal-Zero registry started_at (proposed plan) w t h =
      run_plan-Zero registry started_at plan w t h
  on_proposal-Zero registry started_at (escalated m) w t h = cc
  on_proposal-Zero registry started_at (crashed e) w t h = cc

  on_hits-Zero :
      (registry : ProcedureRegistry) (started_at : String) (scan_result : Json) (query : String)
      (hits : Option (List Payload)) (w : World) (t : Tables)
      → Zero (on_hits env d args registry started_at scan_result query hits w t)
  unfolding on_hits
  on_hits-Zero registry started_at scan_result query none w t h = cc
  on_hits-Zero registry started_at scan_result query (some payloads) w t h =
      on_proposal-Zero registry started_at _ _ t h

  on_oracle_home-Zero :
      (registry : ProcedureRegistry) (started_at : String) (scan_result : Json)
      (home : Result String) (w : World) (t : Tables)
      → Zero (on_oracle_home env d args registry started_at scan_result home w t)
  unfolding on_oracle_home
  on_oracle_home-Zero registry started_at scan_result (raise e) w t h = cc
  on_oracle_home-Zero registry started_at scan_result (ok home) w t h =
      on_hits-Zero registry started_at scan_result _ _ w _ h

  on_scan-Zero :
      (registry : ProcedureRegistry) (started_at : String) (r : Result Json) (w : World)
      (t : Tables)
      → Zero (on_scan env d args registry started_at r w t)
  unfolding on_scan
  on_scan-Zero registry started_at (ok scan_result) w t h =
      on_oracle_home-Zero registry started_at scan_result _ _ t h
  on_scan-Zero registry started_at (raise (scan_failed m)) w t h = cc
  on_scan-Zero registry started_at (raise e) w t h = cc

  on_cdbs-Zero :
      (registry : ProcedureRegistry) (started_at : String) (cdbs : Json ⊎ String) (w : World)
      (t : Tables)
      → Zero (on_cdbs env d args registry started_at cdbs w t)
  unfolding on_cdbs
  on_cdbs-Zero registry started_at (inr m) w t h = cc
  on_cdbs-Zero registry started_at (inl cdbs) w t h =
      let (r, after) =
        scan d.loads env d.scan_playbook d.disk.ansible_dir args.inventory args.target cdbs
          d.timeout_seconds w in
      on_scan-Zero registry started_at r after t h

  on_registry-Zero :
      (started_at : String) (r : Result ProcedureRegistry) (w : World) (t : Tables)
      → Zero (on_registry env d args started_at r w t)
  unfolding on_registry
  on_registry-Zero started_at (raise e) w t h = cc
  on_registry-Zero started_at (ok registry) w t h = on_cdbs-Zero registry started_at _ w t h

  -- If `main` returns 0, whatever the scan, the model server, the processes and the person at the
  -- terminal answered, then the audit log ends with the entry of a validated apply, and the history
  -- of executions ends with a row for the target that records a success.
  pub main-IsPatched :
      (w : World) (t : Tables)
      → (main env d args w t).0 ≡ ok 0
      → IsPatched args.target (main env d args w t).1 (main env d args w t).2
  unfolding main
  main-IsPatched w t h = on_registry-Zero _ _ _ t h

-- ===== src/Main/Gates.antt =====
-- What `main` runs: a scan, and then the gated run of a checked plan, or nothing.
use oracle_patching.Prelude.{◌<>◌, ◌≡◌, ◌⊎◌, inl, List, [], ◌∷◌, ◌++◌}
use oracle_patching.Json.{Json}
use oracle_patching.Errors.{Result, ok, raise, executor_halted}
use oracle_patching.Registry.{ProcedureRegistry, load}
use oracle_patching.Plan.{PatchPlan}
use oracle_patching.World.{World, Env, Command, Event, printed, Outcome}
use oracle_patching.World.Trace.{commands}
use oracle_patching.Executor.Clearance.{Progress}
use oracle_patching.Scanner.Scan.{scan_command, scan_result_of}
use oracle_patching.Agent.Attempts.{IsChecked}
use oracle_patching.Main.Pipeline.{Args, Deployment, context}

-- What is printed of a halted run.
abbrev halt_events : Result (Unit {0}) → List Event
halt_events (raise (executor_halted m)) = printed ("Run halted: " <> m) ∷ []
halt_events r = []

module _ (env : Env) (d : Deployment) (args : Args) (scanned : Outcome) where
  -- The commands are those of a gated run of a plan that was checked, against a registry that loaded
  -- and the version in the result of the scan that came to `scanned`.
  pub record PlanRan (cs : List Command) : Type 0 where
    pub registry : ProcedureRegistry
    pub loaded : load d.disk d.registry_files ≡ ok registry
    pub scan_result : Json
    pub read : scan_result_of d.loads args.target d.timeout_seconds scanned ≡ ok scan_result
    pub plan : PatchPlan
    pub checked : IsChecked registry scan_result plan
    pub events : List Event
    pub gated : Progress plan (context env d args) registry events
    pub same : cs ≡ commands events

  -- From `w` on, at most the commands of a gated run were run.
  abbrev Gated : List Event → List Event → Type 0
  Gated before after =
      (es : List Event) × (after ≡ before ++ es) × ((commands es ≡ []) ⊎ PlanRan (commands es))

module _ (env : Env) (d : Deployment) (args : Args) where
  -- The command of the scan.
  abbrev pub scan_step : Json → Command
  scan_step cdbs =
      scan_command d.scan_playbook d.disk.ansible_dir args.inventory args.target cdbs
        d.timeout_seconds

  -- The commands of a `main`: none, or the scan and then none or those of a gated run.
  abbrev pub MainCommands : List Event → List Command → Type 0
  MainCommands before cs =
      (cs ≡ [])
      ⊎ (cdbs : Json) × (rest : List Command) × (d.loads args.cdbs ≡ inl cdbs)
        × (cs ≡ scan_step cdbs ∷ rest)
        × ((rest ≡ []) ⊎ PlanRan env d args (env.subprocess before (scan_step cdbs)) rest)

  abbrev MainGated : List Event → List Event → Type 0
  MainGated before after =
      (es : List Event) × (after ≡ before ++ es) × MainCommands before (commands es)

-- ===== src/Executor/Refines.antt =====
-- The code takes only the steps of the machine.
use oracle_patching.Prelude.{◌≡◌, sym, ap, ◌∙◌, subst, List, ◌++◌, append_assoc}
use oracle_patching.Errors.{Result, ok, raise, executor_halted}
use oracle_patching.Registry.{ProcedureRegistry}
use oracle_patching.Plan.{PatchPlan}
use oracle_patching.World.{World, M, ◌>>=◌, continue, Event}
use oracle_patching.Executor.{RunContext}
use oracle_patching.Executor.Stages.{Stage, halted, crashed, Steps, stop, step}

-- The stage after an action that started out for `post`.
abbrev pub outcome : {A : Type 0} → (A → Stage) → Result A → Stage
outcome post (ok a) = post a
outcome post (raise (executor_halted m)) = halted
outcome post (raise e) = crashed

module _ (plan : PatchPlan) (ctx : RunContext) (registry : ProcedureRegistry) where
  Steps-append :
      {s t u : Stage} {es fs : List Event}
      → Steps plan ctx registry s es t
      → Steps plan ctx registry t fs u
      → Steps plan ctx registry s (es ++ fs) u
  Steps-append (stop s) q = q
  Steps-append {u} {fs = gs} (step {s = s} {es = es} {fs = fs} st p) q =
      subst (λ l. Steps plan ctx registry s l u) (sym (append_assoc es fs gs))
        (step st (Steps-append p q))

  -- `m`, run at stage `s`, adds the events of steps of the machine, up to the stage that its result
  -- stands for.
  pub record Refines {A : Type 0} (s : Stage) (m : M A) (post : A → Stage) : Type 0 where
    pub at :
        (w : World)
        → (es : List Event) × ((m w).1.events ≡ w.events ++ es)
          × Steps plan ctx registry s es (outcome post (m w).0)

  Refines-continue :
      {A B : Type 0} {s : Stage} (r : Result A) (k : A → M B) (f : A → Stage) (g : B → Stage)
      (w0 w : World) (es : List Event)
      → w.events ≡ w0.events ++ es
      → Steps plan ctx registry s es (outcome f r)
      → ((a : A) → Refines (f a) (k a) g)
      → (fs : List Event) × ((continue r k w).1.events ≡ w0.events ++ fs)
        × Steps plan ctx registry s fs (outcome g (continue r k w).0)
  Refines-continue (ok a) k f g w0 w es added steps more =
      let (fs, then_added, then_steps) = (more a).at w in
      (
        es ++ fs,
        then_added ∙ ap (λ l. l ++ fs) added ∙ append_assoc w0.events es fs,
        Steps-append steps then_steps,
      )
  Refines-continue (raise (executor_halted m)) k f g w0 w es added steps more = (es, added, steps)
  Refines-continue (raise e) k f g w0 w es added steps more = (es, added, steps)

  pub Refines-bind :
      {A B : Type 0} {s : Stage} (m : M A) (k : A → M B) (f : A → Stage) (g : B → Stage)
      → Refines s m f
      → ((a : A) → Refines (f a) (k a) g)
      → Refines s (m >>= k) g
  Refines-bind m k f g first more = record {
    at = λ w.
        let (es, added, steps) = first.at w in
        Refines-continue (m w).0 k f g w (m w).1 es added steps more;
  }

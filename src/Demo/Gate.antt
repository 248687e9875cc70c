-- ===== src/Demo/Gate.antt =====
-- A demonstration whose checks do not pass stops there.
use oracle_patching.Prelude.{
  String, ◌<>◌, ◌≡◌, refl, sym, ap, ◌∙◌, Bool, true, false, List, [], ◌∷◌, ◌++◌, append_assoc,
}
use oracle_patching.Errors.{Result, ok, raise}
use oracle_patching.World.{World, Env, Event, printed}
use oracle_patching.World.Trace.{commands}
use oracle_patching.Preflight.{ping_command, run_preflight}
use oracle_patching.Preflight.Verdict.{run_preflight-Required}
use oracle_patching.Demo.Lines.{print_all}
use oracle_patching.Demo.{DemoArgs, DemoDeployment, Stores, proceed}
use oracle_patching.Demo.Walk.{ready, opening, demo_main}

module _ {Bytes Vector Server : Type 0} (env : Env) (d : DemoDeployment Bytes Vector Server)
    (args : DemoArgs) where
  -- The lines in front of the checks.
  abbrev pub greeting : World → List Event
  greeting w =
      printed ("Logging this run's full transcript to: " <> d.transcript w)
      ∷ printed "Oracle DB Patching — Agentic POC — live demo"
      ∷ printed "Every step below is a real call against a real target. Nothing is mocked."
      ∷ []

  -- The world in which the checks start.
  abbrev pub greeted : World → World
  greeted w = record w { events = w.events ++ greeting w }

  -- What the checks come to.
  abbrev pub checks : World → Result Bool × World
  checks w = run_preflight d.services d.targets env (greeted w)

  opening-checks : (w : World) → opening env d args (d.transcript w) w ≡ checks w
  unfolding opening print_all
  opening-checks w =
      let first = printed ("Logging this run's full transcript to: " <> d.transcript w) in
      let second = printed "Oracle DB Patching — Agentic POC — live demo" in
      let third =
        printed "Every step below is a real call against a real target. Nothing is mocked." in
      ap (λ es. run_preflight d.services d.targets env (record w { events = es }))
        (append_assoc (w.events ++ first ∷ []) (second ∷ []) (third ∷ [])
          ∙ append_assoc w.events (first ∷ []) (second ∷ third ∷ []))

  stopped :
      (path : String) (r : Result Bool) (w : World) (s : Stores Bytes Server)
      → ¬ (r ≡ ok true)
      → ((proceed r (ready env d args path) w s).1 ≡ w)
        × ((proceed r (ready env d args path) w s).2 ≡ s)
        × ¬ ((proceed r (ready env d args path) w s).0 ≡ ok 0)
  unfolding ready
  stopped path (ok true) w s h = absurd (h refl)
  stopped path (ok false) w s h = (refl, refl, λ e. cc)
  stopped path (raise e) w s h = (refl, refl, λ q. cc)

  -- If the checks do not answer true, whether they answer false or raise, then `main` does not return
  -- 0, the inbox, the log of the transfers and the vector store are as they were, and the ping of the
  -- target is the one command that was run.
  pub demo_main-stops :
      (w : World) (s : Stores Bytes Server)
      → ¬ ((checks w).0 ≡ ok true)
      → ((demo_main env d args w s).2 ≡ s)
        × ¬ ((demo_main env d args w s).0 ≡ ok 0)
        × (es : List Event) × ((demo_main env d args w s).1.events ≡ w.events ++ es)
        × (commands es ≡ ping_command d.targets ∷ [])
  unfolding demo_main
  demo_main-stops w s h =
      let path = d.transcript w in
      let opened = opening-checks w in
      let (same, kept, failed) =
        stopped path (opening env d args path w).0 (opening env d args path w).1 s
          (λ e. h (sym (ap (λ r. r.0) opened) ∙ e)) in
      let (answer, es, added, pinged) =
        run_preflight-Required d.services d.targets env (greeted w) in
      (
        kept,
        failed,
        greeting w ++ es,
        ap (λ v. v.events) same
            ∙ ap (λ r. r.1.events) opened
            ∙ added
            ∙ append_assoc w.events (greeting w) es,
        pinged,
      )

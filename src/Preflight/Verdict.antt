-- ===== src/Preflight/Verdict.antt =====
-- When the demonstration may start, and what the checks run.
use oracle_patching.Prelude.{
  String, ◌<>◌, ◌≡◌, refl, sym, ap, ◌∙◌, subst, ◌↔◌, inl, inr, Bool, true, false, not, ◌&&◌, Option,
  none, some, List, [], ◌∷◌, ◌++◌, append-nil, append_assoc, Bool-cases,
}
use oracle_patching.Prelude.Int.{is_zero}
use oracle_patching.Errors.{Result, ok, raise, os_error}
use oracle_patching.World.{
  World, Env, Event, Outcome, completed, timed_out, unavailable, ran, continue, run_process,
}
use oracle_patching.World.Trace.{commands, commands-append}
use oracle_patching.Preflight.Rows.{
  Quiet, Ended, report-Ended, required_rows, one_more, banner-Quiet,
}
use oracle_patching.Preflight.{
  Targets, Services, Check, is_failure, ping_command, ping_result, failed_with, check_vm_ansible,
  check_ollama, check_qdrant, check_postgres, rows, first_banner, conclude_rows, conclude_with,
  reached, page_check, rsplit_head, run_preflight,
}

-- `urlopen` gave a page.
abbrev pub IsPage : Result String → Type 0
IsPage (ok body) = Unit
IsPage (raise e) = ⊥

-- A process that was completed with the return code 0.
abbrev pub IsZero : Outcome → Type 0
IsZero (completed rc out err) = is_zero rc ≡ true
IsZero _ = ⊥

reached_iff :
    (answer : Option String) → (not (is_failure (reached answer).0) ≡ true) ↔ (answer ≡ none)
reached_iff none = (λ h. refl, λ h. refl)
reached_iff (some m) = (λ h. cc, λ h. cc)

-- What the check of the machine and the others come to.
abbrev verdict : Result Check → Result Bool → Result Bool
verdict (ok vm) (ok b) = ok (not (is_failure vm.0) && b)
verdict (ok vm) (raise e) = raise e
verdict (raise e) b = raise e

-- What the other required checks come to, when Qdrant says `q`.
abbrev others_of : Bool → Result Check → Result Bool
others_of q (ok llm) = ok (q && not (is_failure llm.0))
others_of q (raise e) = raise e

failed_with-verdict : (r : Result String) (b : Result Bool) → ¬ verdict (failed_with r) b ≡ ok true
failed_with-verdict (ok m) (ok b) h = cc
failed_with-verdict (ok m) (raise e) h = cc
failed_with-verdict (raise e) b h = cc

failed-verdict : (m : String) (b : Result Bool) → ¬ verdict (ok (some false, m)) b ≡ ok true
failed-verdict m (ok b) h = cc
failed-verdict m (raise e) h = cc

passed-verdict : (m : String) (b : Result Bool) → verdict (ok (some true, m)) b ≡ b
passed-verdict m (ok b) = refl
passed-verdict m (raise e) = refl

others_of_iff :
    (q : Bool) (answer : Result String)
    → (others_of q (page_check answer) ≡ ok true) ↔ ((q ≡ true) × IsPage answer)
unfolding page_check
others_of_iff true (ok body) = (λ h. (refl, tt), λ h. refl)
others_of_iff false (ok body) = (λ h. cc, λ h. cc)
others_of_iff q (raise (os_error m)) = (λ h. absurd (refused q h), λ h. absurd h.1)
  where
    refused : (b : Bool) → ¬ ok (b && false) ≡ ok true
    refused true e = cc
    refused false e = cc
others_of_iff q (raise e) = (λ h. cc, λ h. absurd h.1)

module _ (services : Services) (t : Targets) where
  verdict-ping_result :
      (o : Outcome) (b : Result Bool)
      → (verdict (ping_result services t o) b ≡ ok true) ↔ (IsZero o × (b ≡ ok true))
  unfolding ping_result
  verdict-ping_result (completed rc out err) b = elim (Bool-cases (is_zero rc)) [
    | inl zero_rc ↦
        rw zero_rc
          (λ h. (refl, sym (passed-verdict "pong" b) ∙ h), λ h. passed-verdict "pong" b ∙ h.1)
    | inr other ↦ rw other (λ h. absurd (failed_with-verdict _ b h), λ h. cc)
  ]
  verdict-ping_result (timed_out out) (ok b) = (λ h. cc, λ h. absurd h.0)
  verdict-ping_result (timed_out out) (raise e) = (λ h. cc, λ h. absurd h.0)
  verdict-ping_result (unavailable m) b = elim (Bool-cases (services.is_file_not_found m)) [
    | inl found ↦ rw found (λ h. absurd (failed-verdict m b h), λ h. absurd h.0)
    | inr other ↦ rw other (λ h. cc, λ h. absurd h.0)
  ]

  -- What the services that are required come to, other than the machine.
  abbrev others : Result Bool
  others = others_of (not (is_failure (check_qdrant services t).0)) (check_ollama services t)

  others_iff : (others ≡ ok true) ↔ (
      (services.get_collections t.qdrant_host t.qdrant_port t.timeout_seconds ≡ none)
      × IsPage
          (services.urlopen (rsplit_head "/v1" t.base_url <> "/api/version") t.llm_timeout_seconds))
  unfolding check_qdrant check_ollama
  others_iff =
      let (to, from) =
        others_of_iff (not (is_failure (check_qdrant services t).0)) (
          services.urlopen (rsplit_head "/v1" t.base_url <> "/api/version")
            t.llm_timeout_seconds) in
      (λ h. ((reached_iff _).0 (to h).0, (to h).1), λ (q, l). from ((reached_iff _).1 q, l))

  conclude_rows-Ended :
      (vm llm : Check) (w : World)
      → Ended
          (not (is_failure vm.0)
            && (not (is_failure (check_qdrant services t).0) && not (is_failure llm.0)))
          w
          (conclude_rows services t vm llm w)
  unfolding conclude_rows
  conclude_rows-Ended vm llm w =
      subst (λ b. Ended b w (conclude_rows services t vm llm w))
        (required_rows (is_failure vm.0) (is_failure (check_qdrant services t).0) (is_failure llm.0)
          (is_failure (check_postgres services t).0))
        (report-Ended (rows services t vm llm) w)

  -- An end of the checks with the result `r`, after which nothing was run.
  abbrev EndedBy : Result Bool → World → Result Bool × World → Type 0
  EndedBy r w end = (end.0 ≡ r) × Quiet w.events end.1.events

  from_llm :
      (vm : Check) (llm : Result Check) (w : World)
      → EndedBy
          (verdict (ok vm) (others_of (not (is_failure (check_qdrant services t).0)) llm))
          w
          (continue llm (conclude_rows services t vm) w)
  from_llm vm (ok llm) w = conclude_rows-Ended vm llm w
  from_llm vm (raise e) w = (refl, ([], sym (append-nil w.events), refl))

  -- The end, from what the check of the machine says.
  checked :
      (r : Result Check) (w : World)
      → ((continue r (conclude_with services t) w).0 ≡ verdict r others)
        × Quiet w.events (continue r (conclude_with services t) w).1.events
  unfolding conclude_with
  checked (ok vm) w = from_llm vm (check_ollama services t) w
  checked (raise e) w = (refl, ([], sym (append-nil w.events), refl))

  -- What the command of the checks comes to.
  abbrev pub ping : Env → World → Outcome
  ping env w = env.subprocess (first_banner w).1.events (ping_command t)

  -- The checks answer true exactly if the ping of the target was completed with the return code 0,
  -- Qdrant listed its collections, and the model server gave its version page; what PostgreSQL
  -- answers makes no difference. Whatever is answered, the ping is the one command that they run.
  pub run_preflight-Required :
      (env : Env) (w : World)
      → (((run_preflight services t env w).0 ≡ ok true) ↔ (
          IsZero (ping env w)
          × (services.get_collections t.qdrant_host t.qdrant_port t.timeout_seconds ≡ none)
          × IsPage (
              services.urlopen
                (rsplit_head "/v1" t.base_url <> "/api/version")
                t.llm_timeout_seconds)))
        × (es : List Event) × ((run_preflight services t env w).1.events ≡ w.events ++ es)
        × (commands es ≡ ping_command t ∷ [])
  unfolding run_preflight check_vm_ansible run_process
  run_preflight-Required env w =
      let (answer, (es, added, none_after)) = checked (ping_result services t (ping env w)) _ in
      let (to, from) = verdict-ping_result (ping env w) others in
      let (front, shown, none_before) =
        banner-Quiet 0 "Preflight checks — fail fast instead of hanging" w in
      (
        (
          λ h.
              let (zero_rc, rest) = to (sym answer ∙ h) in
              (zero_rc, (others_iff.0 rest).0, (others_iff.0 rest).1),
          λ (zero_rc, q, l). answer ∙ from (zero_rc, others_iff.1 (q, l)),
        ),
        front ++ ran (ping_command t) ∷ es,
        added
            ∙ ap (λ l. l ++ es) (one_more w.events front _ _ shown)
            ∙ append_assoc w.events _ es
            ∙ ap (λ l. w.events ++ l) (append_assoc front _ es),
        commands-append front (ran (ping_command t) ∷ es)
            ∙ ap (λ l. l ++ ping_command t ∷ commands es) none_before
            ∙ ap (λ l. ping_command t ∷ l) none_after,
      )

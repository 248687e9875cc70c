-- ===== src/Executor/ConformsApply.antt =====
-- The approval and the apply of `run_patch_workflow` take steps of the machine.
use oracle_patching.Prelude.{
  ◌+◌, String, ◌≡◌, refl, ap, ◌∙◌, Bool, true, false, Option, none, some, List, [], ◌∷◌, ◌++◌,
  append_assoc, arith, eq_iff, if◌then◌else◌, All,
}
use oracle_patching.Text.{strip}
use oracle_patching.Audit.{
  AuditEntry, EventType, recommendation, validation_result, approval_decision, execution_output,
}
use oracle_patching.Audit
use oracle_patching.Procedure.{ProcedureDefinition}
use oracle_patching.Registry.{ProcedureRegistry}
use oracle_patching.Plan.{PatchPlan}
use oracle_patching.World.{
  World, Env, ◌>>=◌, ◌>>◌, pure, input, input_answer, typed_line, now_iso, Event, ran, logged,
  printed, asked, Outcome, completed, timed_out, unavailable, record_event, run_process,
  audit_append, written,
}
use oracle_patching.Runner
use oracle_patching.Runner.{
  PlaybookResult, playbook_result, run, run_apply, run_rollback_info, put_var, has_var,
}
use oracle_patching.Snapshot.{SnapshotResult}
use oracle_patching.Approval.{
  decide, print_override, request_confirmation, build_report, override_notice, confirmation_prompt,
  render_text,
}
use oracle_patching.Executor.{
  success_message, RunContext, decision_payload, approval_gate, approve, apply_payload,
  applied_payload, failed_apply_payload, apply_outcome, surface_rollback, report_failure,
  report_success, apply, dry_run_summary,
}
use oracle_patching.Executor.Stages.{
  done, protected, confirmed, Records, IsPrint, confirm, reject, input_ends, apply_passes,
  apply_fails, apply_crashes, rollback_info_crashes, apply_command, rollback_info_command,
}
use oracle_patching.Executor.Refines.{Refines}
use oracle_patching.Executor.Conforms.{Shows, one, guarded}

module _ (env : Env) (plan : PatchPlan) (ctx : RunContext) (registry : ProcedureRegistry)
    (p : ProcedureDefinition) where
  abbrev prompt : String
  prompt = confirmation_prompt plan.target_version

  decide_from :
      (s : SnapshotResult) (typed timestamp : String) (shown : List Event) (w0 w : World)
      → All IsPrint shown
      → w.events ≡ w0.events ++ shown ++ asked prompt ∷ []
      → Shows plan ctx registry
          (protected p s)
          w0
          (approval_gate env ctx p (decide plan.target_version typed env.user timestamp))
          w
          (λ _. confirmed p s)
  unfolding approval_gate decide
  decide_from s typed timestamp shown w0 w prints added =
      let d = decide plan.target_version typed env.user timestamp in
      guarded env plan ctx registry approval_decision (decision_payload d) d.approved tt _
        (λ _. confirmed p s) w0 w (shown ++ asked prompt ∷ [])
        (added ∙ append_assoc w0.events shown (asked prompt ∷ []))
        (λ e h rec. one plan ctx registry (
          confirm p s d e shown _ prints h ((eq_iff typed plan.target_version).0 h) rec
            (append_assoc shown (asked prompt ∷ []) (logged e ∷ []))))
        (λ e h rec. one plan ctx registry (
          reject p s d e shown _ prints h (λ q. ground (arith, eq_iff typed plan.target_version))
            rec (append_assoc shown (asked prompt ∷ []) (logged e ∷ []))))

  answer_from :
      (s : SnapshotResult) (o : Option String) (shown : List Event) (w0 w : World)
      → All IsPrint shown
      → w.events ≡ w0.events ++ shown ++ asked prompt ∷ []
      → Shows plan ctx registry
          (protected p s)
          w0
          ((input_answer o >>= λ answer. now_iso env >>= λ timestamp.
              pure (decide plan.target_version (strip answer) env.user timestamp))
            >>= approval_gate env ctx p)
          w
          (λ _. confirmed p s)
  unfolding input_answer
  answer_from s (some answer) shown w0 w prints added =
      decide_from s (strip answer) (env.isoformat w.readings) shown w0
        (record w { readings = w.readings + 1 }) prints added
  answer_from s none shown w0 w prints added = (
    shown ++ asked prompt ∷ [],
    added ∙ append_assoc w0.events shown (asked prompt ∷ []),
    one plan ctx registry (input_ends p s shown _ prints refl),
  )

  ask_from :
      (s : SnapshotResult) (missing : List String) (a b : String) (w0 w : World)
      → w.events ≡ (w0.events ++ printed a ∷ []) ++ printed b ∷ []
      → Shows plan ctx registry
          (protected p s)
          w0
          ((print_override missing
              >> (input env prompt >>= λ answer. now_iso env >>= λ timestamp.
                  pure (decide plan.target_version (strip answer) env.user timestamp)))
            >>= approval_gate env ctx p)
          w
          (λ _. confirmed p s)
  unfolding print_override input
  ask_from s [] a b w0 w added =
      answer_from s (typed_line env w.events prompt) (printed a ∷ printed b ∷ []) w0
        (record_event (asked prompt) w) (tt, (tt, tt))
        (ap (λ l. l ++ asked prompt ∷ [])
          (added ∙ append_assoc w0.events (printed a ∷ []) (printed b ∷ [])))
  ask_from s (m ∷ ms) a b w0 w added =
      let w1 = record_event (printed override_notice) w in
      answer_from s (typed_line env w1.events prompt)
        (printed a ∷ printed b ∷ printed override_notice ∷ []) w0 (record_event (asked prompt) w1)
        (tt, (tt, (tt, tt)))
        (ap (λ l. (l ++ printed override_notice ∷ []) ++ asked prompt ∷ [])
            (added ∙ append_assoc w0.events (printed a ∷ []) (printed b ∷ []))
          ∙ ap (λ l. l ++ asked prompt ∷ [])
              (append_assoc w0.events (printed a ∷ printed b ∷ []) (printed override_notice ∷ [])))

  pub approve-Refines :
      (s : SnapshotResult)
      → Refines plan ctx registry (protected p s) (approve env ctx p plan s) (λ _. confirmed p s)
  unfolding approve request_confirmation build_report
  approve-Refines s = record {
    at = λ w.
        let report = build_report plan p (dry_run_summary p s) in
        ask_from s report.missing_preconditions (render_text report) "" w
          (record_event (printed "") (record_event (printed (render_text report)) w)) refl;
  }

  report_failure_from :
      (s : SnapshotResult) (r info : PlaybookResult) (e : AuditEntry) (w0 w : World)
      → Runner.succeeded r ≡ false
      → Records e execution_output (apply_payload r)
      → w.events
        ≡ w0.events
          ++ ran (apply_command ctx p plan.procedure_id)
            ∷ logged e
            ∷ ran (rollback_info_command ctx p)
            ∷ []
      → Shows plan ctx registry
          (confirmed p s)
          w0
          (report_failure env ctx p s.restore_point r info)
          w
          (λ _. done)
  unfolding report_failure audit_append Audit.append
  report_failure_from s r info e w0 w failed rec added =
      let f = written env validation_result (failed_apply_payload r info) w in
      let run_so_far : List Event =
        ran (apply_command ctx p plan.procedure_id)
        ∷ logged e
        ∷ ran (rollback_info_command ctx p)
        ∷ [] in
      (
        run_so_far ++ logged f ∷ printed info.stdout ∷ [],
        ap (λ l. (l ++ logged f ∷ []) ++ printed info.stdout ∷ []) added
            ∙ append_assoc (w0.events ++ run_so_far) (logged f ∷ []) (printed info.stdout ∷ [])
            ∙ append_assoc w0.events run_so_far (logged f ∷ printed info.stdout ∷ []),
        one plan ctx registry
            (apply_fails p s r info e f failed rec (record { typed = refl; holds = refl })),
      )

  surface_from :
      (s : SnapshotResult) (r : PlaybookResult) (e : AuditEntry) (o : Outcome) (w0 w : World)
      → Runner.succeeded r ≡ false
      → Records e execution_output (apply_payload r)
      → w.events
        ≡ w0.events
          ++ ran (apply_command ctx p plan.procedure_id)
            ∷ logged e
            ∷ ran (rollback_info_command ctx p)
            ∷ []
      → Shows plan ctx registry
          (confirmed p s)
          w0
          (playbook_result p.rollback_info_playbook ctx.subprocess_timeout_seconds o
            >>= report_failure env ctx p s.restore_point r)
          w
          (λ _. done)
  unfolding playbook_result
  surface_from s r e (completed rc out err) w0 w failed rec added =
      report_failure_from s r _ e w0 w failed rec added
  surface_from s r e (timed_out out) w0 w failed rec added =
      report_failure_from s r _ e w0 w failed rec added
  surface_from s r e (unavailable m) w0 w failed rec added = (
    ran (apply_command ctx p plan.procedure_id) ∷ logged e ∷ ran (rollback_info_command ctx p) ∷ [],
    added,
    one plan ctx registry (rollback_info_crashes p s r e failed rec),
  )

  report_success_from :
      (s : SnapshotResult) (r : PlaybookResult) (e : AuditEntry) (w0 w : World)
      → Runner.succeeded r ≡ true
      → Records e execution_output (apply_payload r)
      → w.events ≡ w0.events ++ ran (apply_command ctx p plan.procedure_id) ∷ logged e ∷ []
      → Shows plan ctx registry
          (confirmed p s)
          w0
          (report_success env ctx p s.restore_point)
          w
          (λ _. done)
  unfolding report_success audit_append Audit.append
  report_success_from s r e w0 w good rec added =
      let f = written env validation_result (applied_payload s.restore_point) w in
      let run_so_far : List Event = ran (apply_command ctx p plan.procedure_id) ∷ logged e ∷ [] in
      (
        run_so_far ++ logged f ∷ printed (success_message s.restore_point) ∷ [],
        ap (λ l. (l ++ logged f ∷ []) ++ printed (success_message s.restore_point) ∷ []) added
            ∙ append_assoc (w0.events ++ run_so_far) (logged f ∷ [])
                (printed (success_message s.restore_point) ∷ [])
            ∙ append_assoc w0.events run_so_far
                (logged f ∷ printed (success_message s.restore_point) ∷ []),
        one plan ctx registry
            (apply_passes p s r e f good rec (record { typed = refl; holds = refl })),
      )

  branch_from :
      (s : SnapshotResult) (r : PlaybookResult) (b : Bool) (w : World)
      → Runner.succeeded r ≡ b
      → Shows plan ctx registry
          (confirmed p s)
          w
          (audit_append env execution_output (apply_payload r)
            >> (if b
                then report_success env ctx p s.restore_point
                else surface_rollback env ctx p s.restore_point r))
          (record_event (ran (apply_command ctx p plan.procedure_id)) w)
          (λ _. done)
  unfolding surface_rollback run_rollback_info run run_process audit_append Audit.append
  branch_from s r true w good =
      let w1 = record_event (ran (apply_command ctx p plan.procedure_id)) w in
      let e = written env execution_output (apply_payload r) w1 in
      report_success_from s r e w (audit_append env execution_output (apply_payload r) w1).1 good
        (record { typed = refl; holds = refl })
        (append_assoc w.events (ran (apply_command ctx p plan.procedure_id) ∷ []) (logged e ∷ []))
  branch_from s r false w bad =
      let w1 = record_event (ran (apply_command ctx p plan.procedure_id)) w in
      let w2 = (audit_append env execution_output (apply_payload r) w1).1 in
      let e = written env execution_output (apply_payload r) w1 in
      surface_from s r e (env.subprocess w2.events (rollback_info_command ctx p)) w
        (record_event (ran (rollback_info_command ctx p)) w2) bad
        (record { typed = refl; holds = refl })
        (ap (λ l. l ++ ran (rollback_info_command ctx p) ∷ [])
            (append_assoc w.events (ran (apply_command ctx p plan.procedure_id) ∷ [])
              (logged e ∷ []))
          ∙ append_assoc w.events (ran (apply_command ctx p plan.procedure_id) ∷ logged e ∷ [])
              (ran (rollback_info_command ctx p) ∷ []))

  apply_outcome_from :
      (s : SnapshotResult) (r : PlaybookResult) (w : World)
      → Shows plan ctx registry
          (confirmed p s)
          w
          (apply_outcome env ctx p s.restore_point r)
          (record_event (ran (apply_command ctx p plan.procedure_id)) w)
          (λ _. done)
  unfolding apply_outcome
  apply_outcome_from s r w = branch_from s r (Runner.succeeded r) w refl

  apply_from :
      (s : SnapshotResult) (o : Outcome) (w : World)
      → Shows plan ctx registry
          (confirmed p s)
          w
          (playbook_result p.apply_playbook ctx.subprocess_timeout_seconds o
            >>= apply_outcome env ctx p s.restore_point)
          (record_event (ran (apply_command ctx p plan.procedure_id)) w)
          (λ _. done)
  unfolding playbook_result
  apply_from s (completed rc out err) w = apply_outcome_from s _ w
  apply_from s (timed_out out) w = apply_outcome_from s _ w
  apply_from s (unavailable m) w = (
    ran (apply_command ctx p plan.procedure_id) ∷ [],
    refl,
    one plan ctx registry (apply_crashes p s),
  )

  pub apply-Refines :
      (s : SnapshotResult)
      → Refines plan ctx registry
          (confirmed p s)
          (apply env ctx p plan.procedure_id s.restore_point)
          (λ _. done)
  unfolding apply run_apply run run_process put_var has_var
  apply-Refines s = record {
    at = λ w. apply_from s (env.subprocess w.events (apply_command ctx p plan.procedure_id)) w;
  }

-- ===== src/Approval/Tests.antt =====
-- The gate and the risk of the sample plan.
use oracle_patching.Prelude.{String, ◌≡◌, refl, ◌↔◌, some}
use oracle_patching.Text.{strip}
use oracle_patching.World.{first_line, typed_line}
use oracle_patching.Approval.{ApprovalReport, build_report, confirmation_prompt}
use oracle_patching.Approval.Report.{high_risk}
use oracle_patching.Approval.Gate.{
  Approves, events_at_question, request_confirmation-Approves_iff, IsLine, approved-IsTypable,
}
use oracle_patching.Approval.Risk.{SomeMissing, build_report-high_iff}
use oracle_patching.Samples.{sample_procedure, sample_plan, sample_env, sample_world}

abbrev sample_report : ApprovalReport
sample_report = build_report sample_plan sample_procedure "precheck.yml exited 0"

request_confirmation-Approves_iff_example : Approves sample_env sample_report sample_world ↔ (
    (answer : String) × (typed_line sample_env
        (events_at_question sample_report sample_world)
        (confirmation_prompt sample_report.target_version)
      ≡ some answer)
    × (strip answer ≡ sample_report.target_version))
request_confirmation-Approves_iff_example =
    request_confirmation-Approves_iff sample_env sample_report sample_world

sample_is_approved : Approves sample_env sample_report sample_world
unfolding first_line strip build_report
sample_is_approved =
    (request_confirmation-Approves_iff sample_env sample_report sample_world).1
      ("19.24.0.0.0", refl, refl)

approved-IsTypable_example : (strip "19.24.0.0.0" ≡ "19.24.0.0.0") × IsLine "19.24.0.0.0"
unfolding build_report
approved-IsTypable_example =
    approved-IsTypable sample_env sample_report sample_world sample_is_approved

-- Only the first line that is typed counts.
first_line_counts : first_line "19.24.0.0.0\nno" ≡ "19.24.0.0.0"
unfolding first_line
first_line_counts = refl

build_report-high_iff_example :
    ((build_report sample_plan sample_procedure "ok").risk_level ≡ high_risk)
    ↔ SomeMissing sample_plan sample_procedure
build_report-high_iff_example = build_report-high_iff sample_plan sample_procedure "ok"

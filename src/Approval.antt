-- ===== src/Approval.antt =====
-- Patching_Agentic/approval/report_builder.py: the report and the human gate.
mod Render
unfoldable pub use Render.{render_text}
pub mod Report
pub use Report.{ApprovalReport}
unfoldable pub use Report.{risk_level, missing_of, warnings_of, build_report}
pub mod Gate
pub mod Risk
mod Tests
use oracle_patching.Prelude.{◌-◌, ◌/◌, ◌<◌, String, ◌<>◌, ap, Bool, not, List, [], ◌∷◌, str_eq}
use oracle_patching.Text.{strip}
use oracle_patching.Errors.{ok, raise}
use oracle_patching.World.{Env, M, ◌>>=◌, ◌>>◌, pure, print, input, now_iso}

pub record ApprovalDecision : Type 0 where
  pub approved : Bool
  pub approver : String
  pub timestamp : String
  pub typed_confirmation : String

abbrev pub override_notice : String
override_notice =
    "One or more required preconditions are NOT confirmed. Approving anyway is a deliberate override, not a default."

abbrev pub confirmation_prompt : String → String
confirmation_prompt version =
    "Type the target version exactly ('" <> version <> "') to approve, or anything else to reject: "

unfoldable pub print_override : List String → M Unit
print_override [] = pure tt
print_override (m ∷ ms) = print override_notice

-- What is typed decides, once the space round it is gone.
unfoldable pub decide : String → String → String → String → ApprovalDecision
decide target_version typed user timestamp = record {
  approved = str_eq typed target_version;
  approver = user;
  timestamp = timestamp;
  typed_confirmation = typed;
}

unfoldable pub request_confirmation : Env → ApprovalReport → M ApprovalDecision
unfolding print_override decide input strip
request_confirmation env report = do
  print (render_text report)
  print ""
  print_override report.missing_preconditions
  answer ← input env (confirmation_prompt report.target_version)
  timestamp ← now_iso env
  pure (decide report.target_version (strip answer) env.user timestamp)

-- ===== src/Approval/Report.antt =====
-- `ApprovalReport`, `_risk_level` and `build_report`.
use oracle_patching.Prelude.{String, ◌<>◌, Bool, Option, List, [], ◌∷◌, ◌++◌, map, if◌then◌else◌}
use oracle_patching.Prelude.Sort.{sort_by}
use oracle_patching.Text.Repr.{repr_list}
use oracle_patching.Procedure.{ProcedureDefinition, known_preconditions, set_minus}
use oracle_patching.Plan.{PatchPlan, confirmed}

pub record ApprovalReport : Type 0 where
  pub target : String
  pub procedure_id : String
  pub current_version : String
  pub target_version : String
  pub preconditions_checked : List (String × Bool)
  pub missing_preconditions : List String
  pub warnings : List String
  pub risk_level : String
  pub dry_run_summary : String
  pub risk_notes : Option String

abbrev pub high_risk : String
high_risk = "HIGH — missing required preconditions, review before approving"

abbrev pub medium_risk : String
medium_risk = "MEDIUM — proceeds with caveats, see warnings"

abbrev pub standard_risk : String
standard_risk = "STANDARD — all required preconditions satisfied"

-- A list is false if it is empty.
unfoldable pub risk_level : List String → List String → String
risk_level (m ∷ ms) warnings = high_risk
risk_level [] (w ∷ ws) = medium_risk
risk_level [] [] = standard_risk

unfoldable pub missing_of : List (String × Bool) → List String → List String
unfolding confirmed
missing_of checked [] = []
missing_of checked (name ∷ names) =
    let rest = missing_of checked names in if confirmed name checked then rest else name ∷ rest

abbrev pub grid_warning : String
grid_warning =
    "This procedure targets a RAC/Grid-Infrastructure path that is UNVERIFIED against a real cluster (see registry notes and STATUS.md Open Issues). Treat as first-of-its-kind, not routine."

abbrev pub unknown_warning : List String → String
unknown_warning unknown =
    "Patch Agent asserted unrecognized precondition key(s) "
    <> repr_list (sort_by (λ s. s) unknown)
    <> " — ignored, not evaluated."

unfoldable pub unknown_warnings : List String → List String
unknown_warnings [] = []
unknown_warnings (x ∷ xs) = unknown_warning (x ∷ xs) ∷ []

unfoldable pub warnings_of : Bool → List (String × Bool) → List String
unfolding unknown_warnings set_minus
warnings_of requires_grid_infra checked =
    (if requires_grid_infra then grid_warning ∷ [] else [])
    ++ unknown_warnings (set_minus (map (λ (k, b). k) checked) known_preconditions)

unfoldable pub build_report : PatchPlan → ProcedureDefinition → String → ApprovalReport
unfolding missing_of warnings_of risk_level
build_report plan procedure dry_run_summary =
    let missing = missing_of plan.preconditions_checked procedure.required_preconditions in
    let warnings = warnings_of procedure.requires_grid_infra plan.preconditions_checked in
    record {
      target = plan.target;
      procedure_id = procedure.procedure_id;
      current_version = plan.current_version;
      target_version = plan.target_version;
      preconditions_checked = plan.preconditions_checked;
      missing_preconditions = missing;
      warnings = warnings;
      risk_level = risk_level missing warnings;
      dry_run_summary = dry_run_summary;
      risk_notes = plan.risk_notes;
    }

-- ===== src/Approval/Render.antt =====
-- `render_text`: the report as the approver reads it.
use oracle_patching.Prelude.{
  ℕ, zero, suc, String, ◌<>◌, Bool, Option, none, some, List, [], ◌∷◌, ◌++◌, map, if◌then◌else◌,
}
use oracle_patching.Prelude.Sort.{sort_by}
use oracle_patching.Text.{is_empty, join}
use oracle_patching.Approval.Report.{ApprovalReport}

-- f"{s:14}"
pad : ℕ → String → String
pad zero s = s
pad (suc n) String.[] = " " <> pad n ""
pad (suc n) (String.◌∷◌ c s) = String.◌∷◌ c (pad n s)

abbrev rule : String
rule = "========================================================================"

precondition_line : String × Bool → String
unfolding pad
precondition_line (name, done) =
    "  [" <> pad 14 (if done then "OK" else "NOT CONFIRMED") <> "] " <> name

missing_lines : List String → List String
missing_lines [] = []
missing_lines (m ∷ ms) = ("  MISSING: " <> join ", " (m ∷ ms)) ∷ []

warning_lines : List String → List String
warning_lines [] = []
warning_lines (w ∷ ws) = "" ∷ "Warnings:" ∷ map (λ x. "  - " <> x) (w ∷ ws)

notes_lines : Option String → List String
notes_lines none = []
notes_lines (some notes) = if is_empty notes then [] else "" ∷ ("Agent risk notes: " <> notes) ∷ []

unfoldable pub render_lines : ApprovalReport → List String
unfolding precondition_line missing_lines warning_lines notes_lines sort_by join
render_lines r =
    (rule
      ∷ "ORACLE PATCH — APPROVAL REQUIRED"
      ∷ rule
      ∷ ("Target:            " <> r.target)
      ∷ ("Procedure:         " <> r.procedure_id)
      ∷ ("Version:           " <> r.current_version <> " -> " <> r.target_version)
      ∷ ("Risk level:        " <> r.risk_level)
      ∷ ""
      ∷ "Estimated downtime: not modeled in this POC — no execution-history data exists yet (see DB_PATCHING_SCOPE.md 'Out of Scope: Learning-loop / execution-history recommendations'). Do not treat silence here as zero."
      ∷ ""
      ∷ "Preconditions:"
      ∷ [])
    ++ map precondition_line (sort_by (λ (k, b). k) r.preconditions_checked)
    ++ missing_lines r.missing_preconditions
    ++ warning_lines r.warnings
    ++ notes_lines r.risk_notes
    ++ ("" ∷ "Dry-run (conflict analysis) summary:" ∷ ("  " <> r.dry_run_summary) ∷ rule ∷ [])

-- The lines, joined.
unfoldable pub render_text : ApprovalReport → String
unfolding render_lines
render_text r = join "\n" (render_lines r)

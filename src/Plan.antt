-- ===== src/Plan.antt =====
-- A patch plan, in the shape that Patching_Agentic/schemas/patch_plan.schema.json allows.
use oracle_patching.Prelude.{
  String, Bool, false, Option, none, some, List, [], ◌∷◌, map, str_eq, if◌then◌else◌,
}
use oracle_patching.Json.{Json, bool, str, object}

pub record PatchPlan : Type 0 where
  pub procedure_id : String
  pub target : String
  pub current_version : String
  pub target_version : String
  pub preconditions_checked : List (String × Bool)
  pub risk_notes : Option String

notes_member : Option String → List (String × Json)
notes_member none = []
notes_member (some notes) = ("risk_notes", str notes) ∷ []

-- The plan as the dict that is logged.
unfoldable pub plan_json : PatchPlan → Json
unfolding notes_member
plan_json p = object (
    ("procedure_id", str p.procedure_id)
    ∷ ("target", str p.target)
    ∷ ("current_version", str p.current_version)
    ∷ ("target_version", str p.target_version)
    ∷ ("preconditions_checked", object (map (λ (k, b). (k, bool b)) p.preconditions_checked))
    ∷ notes_member p.risk_notes)

-- checked.get(name, False)
unfoldable pub confirmed : String → List (String × Bool) → Bool
confirmed k [] = false
confirmed k ((j, b) ∷ m) = if str_eq j k then b else confirmed k m

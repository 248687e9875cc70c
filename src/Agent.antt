-- ===== src/Agent.antt =====
-- Patching_Agentic/agents/patch/patch_agent.py: the plan that the language model proposes, asked for
-- again while it is invalid.
pub mod Attempts
pub mod Dialogue
mod Tests
use oracle_patching.Prelude.{
  false, ℕ, zero, suc, ◌+◌, ◌-◌, ◌/◌, ◌<◌, String, ◌<>◌, ap, ◌⊎◌, inl, inr, not, ◌||◌, Option, none,
  some, List, [], ◌∷◌, ◌++◌, map, str_eq, if◌then◌else◌,
}
use oracle_patching.Prelude.Sort.{sort_by}
use oracle_patching.Text.Decimal.{decimal}
use oracle_patching.Json.{Json, str, arr, items, object}
use oracle_patching.Json.Indent.{dumps_indented}
use oracle_patching.Errors.{
  Exc, Result, ok, raise, str_exc, unknown_procedure, key_error, missing_key, type_error,
}
use oracle_patching.Procedure.{ProcedureDefinition, TargetType, single_instance, rac}
use oracle_patching.Registry
use oracle_patching.Registry.{ProcedureRegistry}
use oracle_patching.Plan.{PatchPlan}
use oracle_patching.Scanner.{extract_db_version}

pub data Role : Type 0 where
  system user assistant : Role

pub record Message : Type 0 where
  pub role : Role
  pub content : String

-- What comes of one call of the model server, with the reading of its first choice. A reply may carry
-- no content. `raised` is any other exception: an APIStatusError, or the IndexError of a response
-- without choices.
pub data Reply : Type 0 where
  content : Option String → Reply
  raised : Exc → Reply
  api_timeout : Reply
  api_connection : String → Reply

-- The settings, the model server, which sees the whole conversation and the schema's list of
-- procedure ids, and the reading of a reply by `json.loads` and `jsonschema.validate`, which is an
-- error message if one of them raises. `type_error` is what `json.loads(None)` raises.
pub record Llm : Type 0 where
  pub base_url : String
  pub timeout_seconds : ℕ
  pub max_schema_retries : ℕ
  pub chat : List String → List Message → Reply
  pub read_plan : List String → String → PatchPlan ⊎ String
  pub system_prompt : String
  pub type_error : String

-- How `propose_plan` ends: a plan, PatchAgentEscalationError, or another exception.
pub data Proposal : Type 0 where
  proposed : PatchPlan → Proposal
  escalated : String → Proposal
  crashed : Exc → Proposal

-- The list of ids that the schema is given, `_build_schema_with_enum`.
unfoldable pub schema_enum : ProcedureRegistry → List String
unfolding Registry.values sort_by
schema_enum registry = sort_by (λ s. s) (map (λ p. p.procedure_id) (Registry.values registry))

abbrev target_name : TargetType → String
target_name single_instance = "single_instance"
target_name rac = "rac"

abbrev pub procedure_summary : ProcedureDefinition → Json
procedure_summary p = object (
    ("procedure_id", str p.procedure_id)
    ∷ ("description", str p.description)
    ∷ ("target_type", str (target_name p.target_type))
    ∷ [])

abbrev pub Hit : Type 0
Hit = List (String × Json)

-- Without the bounds of the versions that a hit applies to.
unfoldable pub sanitized : Hit → Hit
sanitized [] = []
sanitized ((k, v) ∷ hit) =
    let rest = sanitized hit in
    if str_eq k "applicable_min_version" || str_eq k "applicable_max_version"
    then rest
    else (k, v) ∷ rest

-- The value that `_build_user_prompt` dumps.
unfoldable pub user_prompt : Json → List Hit → ProcedureRegistry → Json
unfolding sanitized Registry.values
user_prompt scan_result hits registry = object (
    ("scan_result", scan_result)
    ∷ ("retrieved_knowledge", arr (items (map (λ hit. object (sanitized hit)) hits)))
    ∷ ("available_procedures", arr (items (map procedure_summary (Registry.values registry))))
    ∷ [])

-- `version or ""`
abbrev pub or_empty : Option String → String
or_empty version = elim version [ none ↦ "" | some v ↦ v ]

-- What one attempt comes to.
pub data Judgement : Type 0 where
  accept : PatchPlan → Judgement
  stop : Proposal → Judgement
  again : String → String → Judgement

abbrev pub timeout_message : Llm → String
timeout_message llm =
    "LLM call to "
    <> llm.base_url
    <> " timed out after "
    <> decimal llm.timeout_seconds
    <> "s — the model server may be stuck on an orphaned request from a prior run (e.g. a Ctrl-C'd demo.py doesn't cancel the server-side generation). Try restarting it (e.g. `brew services restart ollama`) before retrying."

-- `last_error` is None only before the first attempt.
abbrev pub failed_message : Llm → Option String → String
failed_message llm last_error =
    "LLM failed to produce a schema-valid patch plan after "
    <> decimal (llm.max_schema_retries + 1)
    <> " attempt(s): "
    <> elim last_error [ none ↦ "None" | some e ↦ e ]

-- The two messages that answer an invalid reply.
abbrev pub correction : String → String → List Message
correction raw_content error =
    record { role = assistant; content = raw_content }
    ∷ record {
      role = user;
      content =
          "That output was invalid: " <> error
          <> ". Return ONLY corrected JSON matching the schema.";
    }
    ∷ []

-- What an attempt comes to, where `retry` is the rest of the loop.
unfoldable pub settle :
    List Message
    → Judgement
    → (String → String → Proposal × List (List Message))
    → Proposal × List (List Message)
settle messages (accept plan) retry = (proposed plan, messages ∷ [])
settle messages (stop proposal) retry = (proposal, messages ∷ [])
settle messages (again raw error) retry =
    let (proposal, sent) = retry raw error in (proposal, messages ∷ sent)

module _ (llm : Llm) (registry : ProcedureRegistry) (scan_result : Json) where
  -- The handler of the checks of a reply: it takes every KeyError, and lets the other exceptions
  -- through.
  refuse : String → Exc → Judgement
  unfolding str_exc
  refuse raw (unknown_procedure m) = again raw (str_exc (unknown_procedure m))
  refuse raw (key_error m) = again raw (str_exc (key_error m))
  refuse raw (missing_key m) = again raw (str_exc (missing_key m))
  refuse raw e = stop (crashed e)

  -- The version is overwritten with the live reading.
  overwrite : String → PatchPlan → Result (Option String) → Judgement
  unfolding refuse
  overwrite raw plan (ok version) = accept (record plan { current_version = or_empty version })
  overwrite raw plan (raise e) = refuse raw e

  -- From `registry.get(plan["procedure_id"])` on.
  recheck : String → PatchPlan → Result ProcedureDefinition → Judgement
  unfolding overwrite refuse extract_db_version
  recheck raw plan (ok p) = overwrite raw plan (extract_db_version scan_result)
  recheck raw plan (raise e) = refuse raw e

  judge_content : String → PatchPlan ⊎ String → Judgement
  unfolding recheck Registry.get
  judge_content raw (inl plan) = recheck raw plan (Registry.get registry plan.procedure_id)
  judge_content raw (inr error) = again raw error

  unfoldable pub judge : Reply → Judgement
  unfolding judge_content schema_enum
  judge (content (some raw)) = judge_content raw (llm.read_plan (schema_enum registry) raw)
  judge (content none) = stop (crashed (type_error llm.type_error))
  judge (raised e) = stop (crashed e)
  judge api_timeout = stop (escalated (timeout_message llm))
  judge (api_connection m) = stop (
      escalated
        ("Could not reach LLM server at " <> llm.base_url <> ": " <> m <> ". Is it running?"))

  -- The loop, with the attempts that are left; the conversations that were sent, oldest first.
  unfoldable pub attempts : ℕ → List Message → Option String → Proposal × List (List Message)
  unfolding judge settle
  attempts zero messages last_error = (escalated (failed_message llm last_error), [])
  attempts (suc n) messages last_error =
      settle messages (judge (llm.chat (schema_enum registry) messages))
        λ raw error. attempts n (messages ++ correction raw error) (some error)

  unfoldable pub propose_plan : List Hit → Proposal × List (List Message)
  unfolding attempts user_prompt dumps_indented
  propose_plan hits =
      attempts (llm.max_schema_retries + 1)
        (record { role = system; content = llm.system_prompt }
          ∷ record {
            role = user;
            content = dumps_indented false 0 (user_prompt scan_result hits registry);
          }
          ∷ [])
        none

-- ===== src/Agent/Dialogue.antt =====
-- The conversations that `propose_plan` sends to the model server.
use oracle_patching.Prelude.{
  ℕ, zero, suc, ◌+◌, String, ◌≡◌, ◌≢◌, refl, false, ap, sym, ◌∙◌, subst, ◌⊎◌, inl, inr, Option,
  none, some, List, [], ◌∷◌, ◌++◌,
}
use oracle_patching.Json.{Json}
use oracle_patching.Json.Indent.{dumps_indented}
use oracle_patching.Errors.{Exc, Result, ok, raise, unknown_procedure, key_error, missing_key}
use oracle_patching.Procedure.{ProcedureDefinition}
use oracle_patching.Registry.{ProcedureRegistry}
use oracle_patching.Plan.{PatchPlan}
use oracle_patching.Agent.{
  Llm, Hit, Message, Role, Reply, content, raised, api_timeout, api_connection, settle, Proposal,
  Judgement, accept, stop, again, correction, user_prompt, schema_enum, refuse, overwrite, recheck,
  judge_content, judge, attempts, propose_plan,
}

module _ (llm : Llm) (registry : ProcedureRegistry) (scan_result : Json) where
  -- A refusal quotes the text.
  abbrev Quotes : String → Judgement → Type 0
  Quotes text (again raw error) = raw ≡ text
  Quotes text _ = Unit

  refuse-Quotes : (raw : String) (e : Exc) → Quotes raw (refuse llm registry scan_result raw e)
  unfolding refuse
  refuse-Quotes raw (unknown_procedure m) = refl
  refuse-Quotes raw (key_error m) = refl
  refuse-Quotes raw (missing_key m) = refl
  refuse-Quotes raw e = tt

  overwrite-Quotes :
      (raw : String) (plan : PatchPlan) (version : Result (Option String))
      → Quotes raw (overwrite llm registry scan_result raw plan version)
  unfolding overwrite
  overwrite-Quotes raw plan (ok version) = tt
  overwrite-Quotes raw plan (raise e) = refuse-Quotes raw e

  recheck-Quotes :
      (raw : String) (plan : PatchPlan) (r : Result ProcedureDefinition)
      → Quotes raw (recheck llm registry scan_result raw plan r)
  unfolding recheck
  recheck-Quotes raw plan (ok p) = overwrite-Quotes raw plan _
  recheck-Quotes raw plan (raise e) = refuse-Quotes raw e

  judge_content-Quotes :
      (raw : String) (read : PatchPlan ⊎ String)
      → Quotes raw (judge_content llm registry scan_result raw read)
  unfolding judge_content
  judge_content-Quotes raw (inl plan) = recheck-Quotes raw plan _
  judge_content-Quotes raw (inr error) = refl

  -- Only a reply with a text is refused, and it is that text which is quoted.
  judge-again :
      (reply : Reply) (raw error : String)
      → judge llm registry scan_result reply ≡ again raw error
      → reply ≡ content (some raw)
  unfolding judge
  judge-again (content (some text)) raw error h =
      let same : raw ≡ text = subst (Quotes text) h (judge_content-Quotes text _) in
      ap (λ x. content (some x)) (sym same)
  judge-again (content none) raw error h = cc
  judge-again (raised e) raw error h = cc
  judge-again api_timeout raw error h = cc
  judge-again (api_connection m) raw error h = cc

  -- The conversations that are sent with a number of attempts left, from the first one on: another
  -- one is sent exactly if the reply to the one before was a text that was refused and an attempt is
  -- left, and it is the one before, with that text and the correction that names the error behind it.
  pub data Dialogue : ℕ → List Message → List (List Message) → Type 0 where
    used_up : (messages : List Message) → Dialogue zero messages []
    settled :
        (n : ℕ) (messages : List Message)
        → ((raw error : String)
            → judge llm registry scan_result (llm.chat (schema_enum registry) messages)
              ≢ again raw error)
        → Dialogue (suc n) messages (messages ∷ [])
    refused :
        (n : ℕ) (messages : List Message) (raw error : String) (sent : List (List Message))
        → llm.chat (schema_enum registry) messages ≡ content (some raw)
        → judge llm registry scan_result (content (some raw)) ≡ again raw error
        → Dialogue n (messages ++ correction raw error) sent
        → Dialogue (suc n) messages (messages ∷ sent)

  settle-Dialogue :
      (n : ℕ) (messages : List Message) (j : Judgement)
      (retry : String → String → Proposal × List (List Message))
      → judge llm registry scan_result (llm.chat (schema_enum registry) messages) ≡ j
      → ((raw error : String) → Dialogue n (messages ++ correction raw error) (retry raw error).1)
      → Dialogue (suc n) messages (settle messages j retry).1
  unfolding settle
  settle-Dialogue n messages (accept plan) retry e h =
      settled n messages λ raw error x. let y = sym e ∙ x in cc
  settle-Dialogue n messages (stop proposal) retry e h =
      settled n messages λ raw error x. let y = sym e ∙ x in cc
  settle-Dialogue n messages (again raw error) retry e h =
      let text = judge-again (llm.chat (schema_enum registry) messages) raw error e in
      refused n messages raw error (retry raw error).1 text
        (ap (judge llm registry scan_result) (sym text) ∙ e) (h raw error)

  attempts-Dialogue :
      (n : ℕ) (messages : List Message) (last_error : Option String)
      → Dialogue n messages (attempts llm registry scan_result n messages last_error).1
  unfolding attempts
  attempts-Dialogue zero messages last_error = used_up messages
  attempts-Dialogue (suc n) messages last_error =
      settle-Dialogue n messages _ _ refl λ raw error. attempts-Dialogue n _ _

  -- Whatever the model server answers, the first conversation that `propose_plan` sends is the system
  -- prompt and the user prompt; another one is sent exactly if the reply to the one before was a text
  -- that was refused, up to `max_schema_retries` times, and it is the one before with two more
  -- messages, that very text and the correction that names its error.
  pub propose_plan-Dialogue :
      (hits : List Hit)
      → Dialogue
          (llm.max_schema_retries + 1)
          (record { role = Role.system; content = llm.system_prompt }
            ∷ record {
              role = Role.user;
              content = dumps_indented false 0 (user_prompt scan_result hits registry);
            }
            ∷ [])
          (propose_plan llm registry scan_result hits).1
  unfolding propose_plan
  propose_plan-Dialogue hits = attempts-Dialogue (llm.max_schema_retries + 1) _ none

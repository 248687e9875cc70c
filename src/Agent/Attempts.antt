-- ===== src/Agent/Attempts.antt =====
-- What `propose_plan` may return, and how often it asks.
use oracle_patching.Prelude.{
  ℕ, zero, suc, ◌+◌, ◌≤◌, String, ◌≡◌, refl, ap, ◌⊎◌, inl, inr, true, Option, none, some, List,
  arith, length,
}
use oracle_patching.Json.{Json}
use oracle_patching.Errors.{Exc, Result, ok, raise, unknown_procedure, key_error, missing_key}
use oracle_patching.Procedure.{ProcedureDefinition}
use oracle_patching.Registry
use oracle_patching.Registry.{ProcedureRegistry}
use oracle_patching.Registry.Lookup.{get-contains}
use oracle_patching.Plan.{PatchPlan}
use oracle_patching.Scanner.{extract_db_version}
use oracle_patching.Agent.{
  Llm, Hit, Message, Reply, content, raised, api_timeout, api_connection, settle, Proposal,
  proposed, escalated, crashed, Judgement, accept, stop, again, or_empty, failed_message,
  schema_enum, refuse, overwrite, recheck, judge_content, judge, attempts, propose_plan,
}

-- The plan names a procedure of the registry, and its current version is the live reading.
pub record IsChecked (registry : ProcedureRegistry) (scan_result : Json) (plan : PatchPlan)
    : Type 0 where
  pub registered : Registry.contains registry plan.procedure_id ≡ true
  pub reading : Option String
  pub live : extract_db_version scan_result ≡ ok reading
  pub read_live : plan.current_version ≡ or_empty reading

-- The replies that lead to another attempt.
abbrev pub IsInvalid : Judgement → Type 0
IsInvalid (again raw error) = Unit
IsInvalid _ = ⊥

module _ (llm : Llm) (registry : ProcedureRegistry) (scan_result : Json) where
  contains-of_get :
      (k : String) (p : ProcedureDefinition)
      → Registry.get registry k ≡ ok p
      → Registry.contains registry k ≡ true
  contains-of_get k p h = ground (arith, (get-contains registry k).1)

  -- An attempt accepts only checked plans, and proposes a plan in no other way.
  abbrev Sound : Judgement → Type 0
  Sound (accept plan) = IsChecked registry scan_result plan
  Sound (stop (proposed plan)) = ⊥
  Sound _ = Unit

  refuse-Sound : (raw : String) (e : Exc) → Sound (refuse llm registry scan_result raw e)
  unfolding refuse
  refuse-Sound raw (unknown_procedure m) = tt
  refuse-Sound raw (key_error m) = tt
  refuse-Sound raw (missing_key m) = tt
  refuse-Sound raw e = tt

  overwrite-Sound :
      (raw : String) (plan : PatchPlan) (version : Result (Option String))
      → Registry.contains registry plan.procedure_id ≡ true
      → extract_db_version scan_result ≡ version
      → Sound (overwrite llm registry scan_result raw plan version)
  unfolding overwrite
  overwrite-Sound raw plan (ok version) known read = record {
    registered = known;
    reading = version;
    live = read;
    read_live = refl;
  }
  overwrite-Sound raw plan (raise e) known read = refuse-Sound raw e

  recheck-Sound :
      (raw : String) (plan : PatchPlan) (r : Result ProcedureDefinition)
      → Registry.get registry plan.procedure_id ≡ r
      → Sound (recheck llm registry scan_result raw plan r)
  unfolding recheck
  recheck-Sound raw plan (ok p) g =
      overwrite-Sound raw plan _ (contains-of_get plan.procedure_id p g) refl
  recheck-Sound raw plan (raise e) g = refuse-Sound raw e

  judge_content-Sound :
      (raw : String) (read : PatchPlan ⊎ String)
      → Sound (judge_content llm registry scan_result raw read)
  unfolding judge_content
  judge_content-Sound raw (inl plan) = recheck-Sound raw plan _ refl
  judge_content-Sound raw (inr error) = tt

  judge-Sound : (reply : Reply) → Sound (judge llm registry scan_result reply)
  unfolding judge
  judge-Sound (content (some raw)) = judge_content-Sound raw _
  judge-Sound (content none) = tt
  judge-Sound (raised e) = tt
  judge-Sound api_timeout = tt
  judge-Sound (api_connection m) = tt

  -- A plan that is proposed is checked.
  abbrev pub Proposed-IsChecked : Proposal → Type 0
  Proposed-IsChecked (proposed plan) = IsChecked registry scan_result plan
  Proposed-IsChecked _ = Unit

  -- The end of a loop of at most `n` attempts.
  abbrev Good : ℕ → Proposal × List (List Message) → Type 0
  Good n end = Proposed-IsChecked end.0 × (length end.1 ≤ n)

  settle-Good :
      (n : ℕ) (messages : List Message) (j : Judgement)
      (retry : String → String → Proposal × List (List Message))
      → Sound j
      → ((raw error : String) → Good n (retry raw error))
      → Good (suc n) (settle messages j retry)
  unfolding settle
  settle-Good n messages (accept plan) retry s h = (s, omega arith)
  settle-Good n messages (stop (proposed plan)) retry s h = absurd s
  settle-Good n messages (stop (escalated m)) retry s h = (tt, omega arith)
  settle-Good n messages (stop (crashed m)) retry s h = (tt, omega arith)
  settle-Good n messages (again raw error) retry s h =
      ((h raw error).0, omega (arith, (h raw error).1))

  attempts-Good :
      (n : ℕ) (messages : List Message) (last_error : Option String)
      → Good n (attempts llm registry scan_result n messages last_error)
  unfolding attempts
  attempts-Good zero messages last_error = (tt, omega arith)
  attempts-Good (suc n) messages last_error =
      settle-Good n messages _ _ (judge-Sound _) λ raw error. attempts-Good n _ _

  -- Whatever the model server answers, `propose_plan` calls it at most once more than
  -- `max_schema_retries`, and if it returns a plan, then the plan names a procedure of the registry
  -- and its current version is the one read from the scan, or empty if there is none.
  pub propose_plan-IsChecked :
      (hits : List Hit)
      → Proposed-IsChecked (propose_plan llm registry scan_result hits).0
        × (length (propose_plan llm registry scan_result hits).1 ≤ llm.max_schema_retries + 1)
  unfolding propose_plan
  propose_plan-IsChecked hits = attempts-Good (llm.max_schema_retries + 1) _ none

  -- The server's reply to each conversation is invalid.
  abbrev pub AlwaysInvalid : Type 0
  AlwaysInvalid =
      (messages : List Message)
      → IsInvalid (judge llm registry scan_result (llm.chat (schema_enum registry) messages))

  -- The end of a loop in which `n` attempts failed.
  abbrev Failed : ℕ → Proposal × List (List Message) → Type 0
  Failed n end =
      ((error : Option String) × (end.0 ≡ escalated (failed_message llm error)))
      × (length end.1 ≡ n)

  settle-Failed :
      (n : ℕ) (messages : List Message) (j : Judgement)
      (retry : String → String → Proposal × List (List Message))
      → IsInvalid j
      → ((raw error : String) → Failed n (retry raw error))
      → Failed (suc n) (settle messages j retry)
  unfolding settle
  settle-Failed n messages (again raw error) retry i h = ((h raw error).0, ap suc (h raw error).1)
  settle-Failed n messages (accept plan) retry i h = absurd i
  settle-Failed n messages (stop proposal) retry i h = absurd i

  attempts-Failed :
      (n : ℕ) (messages : List Message) (last_error : Option String)
      → AlwaysInvalid
      → Failed n (attempts llm registry scan_result n messages last_error)
  unfolding attempts
  attempts-Failed zero messages last_error i = ((last_error, refl), refl)
  attempts-Failed (suc n) messages last_error i =
      settle-Failed n messages _ _ (i messages) λ raw error. attempts-Failed n _ _ i

  -- If every reply is invalid, `propose_plan` asks exactly once more than `max_schema_retries` and
  -- then escalates to a human.
  pub propose_plan-escalated :
      (hits : List Hit)
      → AlwaysInvalid
      → ((error : Option String) × ((propose_plan llm registry scan_result hits).0
            ≡ escalated (failed_message llm error)))
        × (length (propose_plan llm registry scan_result hits).1 ≡ llm.max_schema_retries + 1)
  unfolding propose_plan
  propose_plan-escalated hits i = attempts-Failed (llm.max_schema_retries + 1) _ none i

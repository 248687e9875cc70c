-- ===== src/Agent/Tests.antt =====
-- The server that proposes the sample plan, and one that never gives a valid plan.
use oracle_patching.Prelude.{◌+◌, ◌≤◌, String, ◌≡◌, inr, Option, some, [], ◌∷◌, false, length}
use oracle_patching.Json.{null}
use oracle_patching.Json.Indent.{dumps_indented}
use oracle_patching.Agent.Dialogue.{Dialogue, propose_plan-Dialogue}
use oracle_patching.Agent.{
  Llm, Role, content, escalated, failed_message, judge, user_prompt, propose_plan,
}
use oracle_patching.Agent.Attempts.{
  AlwaysInvalid, Proposed-IsChecked, propose_plan-IsChecked, propose_plan-escalated,
}
use oracle_patching.Samples.{server, willing, sample_registry}

abbrev confused : Llm
confused = server (λ ids messages. content (some "sure!")) λ raw. inr "Expecting value"

propose_plan-IsChecked_example :
    Proposed-IsChecked willing sample_registry null (propose_plan willing sample_registry null []).0
    × (length (propose_plan willing sample_registry null []).1 ≤ 2 + 1)
propose_plan-IsChecked_example = propose_plan-IsChecked willing sample_registry null []

confused-AlwaysInvalid : AlwaysInvalid confused sample_registry null
unfolding judge
confused-AlwaysInvalid messages = tt

propose_plan-escalated_example :
    ((error : Option String) × ((propose_plan confused sample_registry null []).0
        ≡ escalated (failed_message confused error)))
    × (length (propose_plan confused sample_registry null []).1 ≡ 2 + 1)
propose_plan-escalated_example =
    propose_plan-escalated confused sample_registry null [] confused-AlwaysInvalid

propose_plan-Dialogue_example :
    Dialogue confused sample_registry null
      (2 + 1)
      (record { role = Role.system; content = "propose a plan" }
        ∷ record {
          role = Role.user;
          content = dumps_indented false 0 (user_prompt null [] sample_registry);
        }
        ∷ [])
      (propose_plan confused sample_registry null []).1
propose_plan-Dialogue_example = propose_plan-Dialogue confused sample_registry null []

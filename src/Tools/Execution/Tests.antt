-- ===== src/Tools/Execution/Tests.antt =====
-- Witnesses for the tool router: a tool that answers with a text, asked twice.
use learning_system.Prelude.{
  ◌≤◌, ◌≡◌, refl, true, false, none, some, List, [], ◌∷◌, ok, Text, count_where, Json,
}
use learning_system.Prelude.Jsons.{string, array, object, item, no_items, field, no_fields}
use learning_system.Tools.{
  ToolPolicy, read_only, plain, Handler, RegisteredTool, registered, Registry, ToolResult, Router,
  Request,
}
use learning_system.Tools.Filter.{sanitize_text, sanitize}
use learning_system.Tools.Execution.Passed.{texts_clean, normalize-clean}
use learning_system.Tools.Execution.{execute_agent, normalize, items_key}
use learning_system.Tools.Execution.Effects.{is_call_for}
use learning_system.Tools.Execution.Budget.{Action, act_all, new_router, act_all-within_budget}
use learning_system.Tools.Execution.Caching.{execute_agent-repeats}

abbrev digest : Text → Text
digest t = 35 ∷ t

abbrev dumps : Json → Text
dumps (string t) = 34 ∷ t
dumps _ = []

abbrev policy : ToolPolicy
policy = record {
  max_calls_per_run = 1;
  timeout = 10;
  max_argument_bytes = 100;
  max_raw_result_bytes = 100;
  max_normalized_result_chars = 50;
  max_result_items = 5;
}

-- "Hi", after one microsecond
abbrev greets : Handler
greets moment arguments = record { took = 1; outcome = plain (string (72 ∷ 105 ∷ [])) }

abbrev greeting : RegisteredTool
greeting = record {
  safety_class = read_only;
  agent_visible = true;
  handler = greets;
  argument_model = none;
  legacy_handler = none;
  evidence_mapper = none;
  completion_handler = true;
}

abbrev tools : Registry
tools name = some (registered greeting)

abbrev question : Text → Request
question arguments = record {
  run_id = 82 ∷ [];
  user_id = 85 ∷ [];
  tool_name = 103 ∷ [];
  arguments = string arguments;
  moment = 0;
}

abbrev answer : ToolResult
answer = record {
  value = string (72 ∷ 105 ∷ []);
  cache_hit = false;
  truncated = false;
  untrusted = true;
  fingerprint = digest (103 ∷ 10 ∷ 34 ∷ 97 ∷ []);
  evidence_items = [];
}

abbrev asked_once : Router
asked_once = (execute_agent digest dumps dumps policy false tools new_router (question (97 ∷ []))).0

-- Another question, which the budget of one call refuses.
abbrev others : List Action
others = Action.by_agent (question (98 ∷ [])) ∷ []

asked_once-answer :
    (execute_agent digest dumps dumps policy false tools new_router (question (97 ∷ []))).1
    ≡ ok answer
unfolding execute_agent
asked_once-answer = refl

execute_agent-repeats_example :
    execute_agent digest dumps dumps policy false tools
      (act_all digest dumps dumps policy false tools asked_once others)
      (record (question (97 ∷ [])) { moment = 7 })
    ≡ (
      act_all digest dumps dumps policy false tools asked_once others,
      ok (record answer { cache_hit = true }),
    )
execute_agent-repeats_example =
    execute_agent-repeats digest dumps dumps policy false tools new_router (question (97 ∷ []))
      answer others 7 (act_all digest dumps dumps policy false tools asked_once others)
      asked_once-answer refl

act_all-within_budget_example :
    count_where
      (is_call_for (82 ∷ []))
      (act_all digest dumps dumps policy false tools new_router
        (Action.by_agent (question (97 ∷ [])) ∷ Action.direct (question (98 ∷ [])) ∷ [])).log
    ≤ 1
act_all-within_budget_example =
    act_all-within_budget digest dumps dumps policy false tools
      (Action.by_agent (question (97 ∷ [])) ∷ Action.direct (question (98 ∷ [])) ∷ []) (82 ∷ [])

-- "a SYSTEM prompt"
abbrev hostile : Text
hostile = 97 ∷ 32 ∷ 83 ∷ 89 ∷ 83 ∷ 84 ∷ 69 ∷ 77 ∷ 32 ∷ 112 ∷ 114 ∷ 111 ∷ 109 ∷ 112 ∷ 116 ∷ []

abbrev narrow : ToolPolicy
narrow = record policy { max_result_items = 2 }

-- {"items": [hostile, "b", "c"]}, which has more items than the policy lets through
abbrev hostile_answer : Json
hostile_answer = object (
    field items_key
      (array (item (string hostile) (item (string (98 ∷ [])) (item (string (99 ∷ [])) no_items))))
      no_fields)

normalize-clean_example : texts_clean (normalize narrow hostile_answer).0 ≡ true
normalize-clean_example = normalize-clean narrow hostile_answer

-- A key that is a phrase is passed on as it is.
hostile_key-kept :
    sanitize (object (field hostile (string hostile) no_fields))
    ≡ object (field hostile (string (sanitize_text hostile)) no_fields)
unfolding sanitize
hostile_key-kept = refl

-- ===== src/Agent/Loop/Examples.antt =====
-- A planner that searches, searches again in other words, and reads a file.
use code_mate.Prelude.{ℕ, ◌≡◌, refl, String, true, Option, none, [], ◌∷◌, is_some}
use code_mate.Lists.{member}
use code_mate.Json.{pos, Json, Fields, null, str, arr, nil, cons, end, field, get}
use code_mate.Agent.Loop.Actions.{finish, tool_call, Action, search_code, tools_search_code}
use code_mate.Agent.Loop.State.{Settings, plan, LoopState}
use code_mate.Agent.Loop.Updates.{
  planner_budget_violation, Input, tool_budget_violation, deadline_reached,
}
use code_mate.Agent.Loop.Summary.{observation_summary}
use code_mate.Agent.Loop.Execute.{Validation, invalid, valid, execute}
use code_mate.Agent.Loop.Planner.{proposes, turn}
use code_mate.Agent.Loop.Budget.{IsEnd, over_budget_ends}
use code_mate.Agent.Loop.Termination.{steps_left, loop, loop_terminates}
use code_mate.Agent.Loop.Safety.{IsGuarded, execute-IsGuarded, reworded_not_repeated}

abbrev settings : Settings
settings = record {
  max_local_tool_calls = 12;
  max_planner_calls = 16;
  max_planner_tokens = 24000;
  max_no_progress_steps = 3;
  max_read_lines = 800;
  max_evidence_items = 40;
  max_action_history = 64;
  allowed_test_commands = "pytest" ∷ [];
}

abbrev search : String → Action
search hypothesis = record {
  hypothesis = hypothesis;
  rationale = "to see";
  request = search_code "claim" 6;
}

-- A stand-in for pydantic, on the hypothesis alone.
abbrev validate_hypothesis : Json → Validation
validate_hypothesis (str s) = valid (search s)
validate_hypothesis v = invalid "hypothesis"

abbrev validate : Fields → Validation
validate raw = validate_hypothesis (get "hypothesis" raw)

abbrev text_of : Json → String
text_of (str s) = s
text_of v = "{}"

abbrev identity : String → String
identity s = s

abbrev no_time : String → Option ℕ
no_time raw = none

abbrev summary : Action → Json → String
summary a result = observation_summary text_of text_of text_of identity a result

abbrev proposal : String → Input
proposal hypothesis = record {
  raw_action = field "action" (str "SearchCode") (field "hypothesis" (str hypothesis) end);
  now = 5;
  timestamp = "t";
  tools = λ call. arr (cons (str "app/main.py") nil);
}

abbrev first : LoopState
first = record {
  current_action = end;
  action_outcome = record {
    route = plan;
    ok = true;
    reason = none;
    guardrail = none;
    observation = none;
    evidence_id = none;
  };
  action_history = [];
  hypotheses = [];
  evidence = [];
  evidence_fingerprints = [];
  local_action_fingerprints = [];
  local_tool_call_count = 0;
  local_planner_call_count = 0;
  local_planner_token_count = 0;
  no_progress_count = 0;
  finish_reason = none;
  files = [];
  retrieved_chunks = null;
  code_graphs = [];
  diagnostic_test_result = null;
  agent_loop_deadline_at = none;
  diagnosis = "";
}

loop_terminates_example :
    is_some (
      loop settings validate text_of identity text_of no_time summary
        (steps_left settings first)
        (λ n. proposal "again")
        0
        first)
    ≡ true
loop_terminates_example =
    loop_terminates settings validate text_of identity text_of no_time summary
      (λ n. proposal "again") 0 first

execute-IsGuarded_example :
    IsGuarded settings validate text_of identity text_of no_time summary
      (proposal "one")
      first
      (execute settings validate text_of identity text_of no_time summary (proposal "one") first)
execute-IsGuarded_example =
    execute-IsGuarded settings validate text_of identity text_of no_time summary (proposal "one")
      first

reworded_not_repeated_example :
    (execute settings validate text_of identity text_of no_time summary
      (proposal "two")
      (execute settings validate text_of identity text_of no_time summary
        (proposal "one")
        first).0).1
    ≡ none
unfolding execute get tool_call tool_budget_violation deadline_reached member
reworded_not_repeated_example =
    reworded_not_repeated settings validate text_of identity text_of no_time summary
      (proposal "one") (proposal "two") first (search "one") (search "two")
      {call = tools_search_code "claim" 6} refl refl refl refl

-- A stand-in for pydantic that reads `Finish`.
abbrev validate_finish : Fields → Validation
validate_finish raw = valid (record {
  hypothesis = text_of (get "hypothesis" raw);
  rationale = text_of (get "rationale" raw);
  request = finish (text_of (get "reason" raw));
})

-- The calls of the planner are used up.
abbrev asked_out : LoopState
asked_out = record first { local_planner_call_count = 16 }

over_budget_ends_example :
    IsEnd settings validate_finish text_of identity text_of no_time summary identity asked_out (
      turn settings validate_finish text_of identity text_of no_time summary identity
        (proposal "one")
        (proposes (search "one") (pos 9))
        asked_out)
unfolding get planner_budget_violation deadline_reached
over_budget_ends_example =
    over_budget_ends settings validate_finish text_of identity text_of no_time summary identity
      (proposal "one") (proposes (search "one") (pos 9)) asked_out
      "agent_planner_call_budget_exhausted" refl refl refl

-- ===== src/Agent/Loop/Planner.antt =====
-- The nodes `plan_next_action` and `execute_local_action` of `AgentService._nodes`
-- (backend/app/services/agent_service.py): the planner is asked within its budgets, and what it
-- answers is handed to the executor. `strip` is str.strip, which pydantic applies to the fields.
use Prim.Native.String.{◌++◌ as str_append}
use code_mate.Prelude.{ℕ, ◌+◌, String, Option, none, some, ltb, if◌then◌else◌, ◌>>=◌}
use code_mate.Text.{length}
use code_mate.Json.{ℤ, pos, negsuc, Json, Fields}
use code_mate.Agent.Loop.Actions.{Action, ToolCall, finish, model_dump}
use code_mate.Agent.Loop.State.{Settings, LoopState}
use code_mate.Agent.Loop.Updates.{Input, planner_budget_violation}
use code_mate.Agent.Loop.Execute.{Validation, execute}

-- What the model, or the fixed workflow, answers: an action and its tokens, or an exception.
pub data Answer : Type 0 where
  proposes : Action → ℤ → Answer
  fails : String → Answer

-- `max(0, int(used_tokens))`
abbrev pub clip : ℤ → ℕ
clip (pos n) = n
clip (negsuc n) = 0

abbrev pub budget_finish : String → Action
budget_finish reason = record {
  hypothesis = "The controlled agent loop cannot safely continue within policy.";
  rationale = "The deterministic executor has exhausted a configured budget.";
  request = finish reason;
}

abbrev pub token_finish : Action
token_finish = record {
  hypothesis = "The planner token budget is exhausted.";
  rationale = "Stopping prevents an unbounded planning loop.";
  request = finish "agent_planner_token_budget_exhausted";
}

-- The action for an exception; none where `Finish` raises, since its reason is too long.
abbrev pub error_finish : (String → String) → String → Option Action
error_finish strip error =
    let reason = strip (str_append "planner_error: " error) in
    if ltb 2000 (length reason)
    then none
    else some (record {
      hypothesis = "The planner did not produce a valid structured action.";
      rationale = "Unvalidated model output must never reach a local tool.";
      request = finish reason;
    })

-- The action and the tokens of a model that was asked.
unfoldable pub answered : (String → String) → Answer → Option (Action × ℕ)
answered strip (proposes a tokens) = some (a, clip tokens)
answered strip (fails error) = error_finish strip error >>= λ a. some (a, 0)

-- The action and the tokens, with the violation of the budgets.
unfoldable pub chosen : (String → String) → Option String → Answer → Option (Action × ℕ)
unfolding answered
chosen strip (some reason) answer = some (budget_finish reason, 0)
chosen strip none answer = answered strip answer

-- The end of `plan_next_action`, from the count of the tokens on.
abbrev pub with_plan : Settings → LoopState → Action × ℕ → LoopState
with_plan c s (a, used_tokens) =
    let tokens = s.local_planner_token_count + used_tokens in
    record s {
      current_action = model_dump (if ltb c.max_planner_tokens tokens then token_finish else a);
      local_planner_call_count = s.local_planner_call_count + 1;
      local_planner_token_count = tokens;
    }

module _ (c : Settings) (validate : Fields → Validation) (dumps : Json → String)
    (sha256 : String → String) (text : Json → String) (parse_time : String → Option ℕ)
    (summary : Action → Json → String) (strip : String → String) where
  -- `plan_next_action`: none where it raises.
  unfoldable pub plan_next_action : ℕ → Answer → LoopState → Option LoopState
  unfolding chosen
  plan_next_action now answer s =
      chosen strip (planner_budget_violation c dumps sha256 parse_time now s) answer >>= λ plan.
      some (with_plan c s plan)

  -- The two nodes in a row. The input's own action is the planned one.
  unfoldable pub turn : Input → Answer → LoopState → Option (LoopState × Option ToolCall)
  unfolding plan_next_action
  turn i answer s = plan_next_action i.now answer s >>= λ t. some (
      execute c validate dumps sha256 text parse_time summary
        (record i { raw_action = t.current_action }) t)

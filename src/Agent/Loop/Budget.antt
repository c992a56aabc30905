-- ===== src/Agent/Loop/Budget.antt =====
-- The budgets of the planner.
use code_mate.Prelude.{ℕ, ◌+◌, ◌≡◌, refl, String, Option, none, some, inl, inr, Bool-cases, ltb}
use code_mate.Json.{Json, Fields}
use code_mate.Agent.Loop.Actions.{Action, finish, ToolCall, model_dump}
use code_mate.Agent.Loop.State.{Settings, final, LoopState}
use code_mate.Agent.Loop.Updates.{Input, planner_budget_violation}
use code_mate.Agent.Loop.Execute.{Validation, valid, execute, execute_validated, execute_action}
use code_mate.Agent.Loop.Planner.{
  Answer, budget_finish, token_finish, chosen, plan_next_action, turn,
}

module _ (c : Settings) (validate : Fields → Validation) (dumps : Json → String)
    (sha256 : String → String) (text : Json → String) (parse_time : String → Option ℕ)
    (summary : Action → Json → String) (strip : String → String) where
  -- A step that ends the loop, without a tool.
  abbrev pub IsEnd : LoopState → Option (LoopState × Option ToolCall) → Type 0
  IsEnd s none = ⊥
  IsEnd s (some (t, call)) =
      (call ≡ none)
      × (t.action_outcome.route ≡ final)
      × (t.local_tool_call_count ≡ s.local_tool_call_count)
      × (t.local_planner_call_count ≡ s.local_planner_call_count + 1)

  validated-IsEnd :
      (i : Input) (s t : LoopState) (a : Action) (reason : String) (v : Validation)
      → v ≡ valid a
      → a.request ≡ finish reason
      → t.local_tool_call_count ≡ s.local_tool_call_count
      → t.local_planner_call_count ≡ s.local_planner_call_count + 1
      → IsEnd s (some (execute_validated c validate dumps sha256 text parse_time summary i t v))
  unfolding execute_validated execute_action
  validated-IsEnd i s t a reason v is finishes tools calls =
      rw (is, finishes) (refl, refl, tools, calls)

  -- Once a budget of the planner is used up (its time, calls, tokens or steps without progress), the
  -- next turn of the two nodes does not raise, calls no tool and ends the loop, whatever the model
  -- would answer. The condition is that pydantic reads the two actions that the node itself writes
  -- for this as what they are.
  pub over_budget_ends :
      (i : Input) (answer : Answer) (s : LoopState) (reason : String)
      → validate (model_dump (budget_finish reason)) ≡ valid (budget_finish reason)
      → validate (model_dump token_finish) ≡ valid token_finish
      → planner_budget_violation c dumps sha256 parse_time i.now s ≡ some reason
      → IsEnd s (turn c validate dumps sha256 text parse_time summary strip i answer s)
  unfolding turn plan_next_action chosen execute
  over_budget_ends i answer s reason reads reads_tokens over =
      elim (Bool-cases (ltb c.max_planner_tokens (s.local_planner_token_count + 0))) [
        | inl spent ↦
            rw (over, spent)
              (validated-IsEnd (record i { raw_action = model_dump token_finish }) s _ token_finish
                "agent_planner_token_budget_exhausted" _ reads_tokens refl refl refl)
        | inr left ↦
            rw (over, left)
              (validated-IsEnd (record i { raw_action = model_dump (budget_finish reason) }) s _
                (budget_finish reason) reason _ reads refl refl refl)
      ]

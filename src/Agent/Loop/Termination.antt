-- ===== src/Agent/Loop/Termination.antt =====
-- The local loop ends: whatever the planner proposes and the tools answer.
use code_mate.Prelude.{
  ℕ, zero, suc, ◌+◌, ◌-◌, ◌≤◌, ◌<◌, ◌≡◌, refl, String, Bool, true, false, Option, none, some,
  is_some, inl, inr, Bool-cases, arith, if◌then◌else◌,
}
use code_mate.Json.{Json, Fields}
use code_mate.Agent.Loop.Actions.{Action, ToolCall}
use code_mate.Agent.Loop.State.{Settings, Route, plan, generate, final, LoopState}
use code_mate.Agent.Loop.Updates.{Input, tool_budget_violation, guardrail_rejection}
use code_mate.Agent.Loop.Execute.{Validation, observe, execute}
use code_mate.Agent.Loop.Cases.{execute-Ends}

abbrev pub is_plan : Route → Bool
is_plan plan = true
is_plan generate = false
is_plan final = false

-- `limit` failures for each of `tools` calls, and the calls.
unfoldable work : ℕ → ℕ → ℕ
work limit zero = 0
work limit (suc tools) = limit + 1 + work limit tools

-- How many steps are left at most: the calls that the budget still has, the steps without progress
-- between them, and the step that ends the loop.
unfoldable pub steps_left : Settings → LoopState → ℕ
unfolding work
steps_left c s =
    work c.max_no_progress_steps (c.max_local_tool_calls - s.local_tool_call_count)
    + (c.max_no_progress_steps - s.no_progress_count)
    + 1

before : (tools used : ℕ) → used < tools → tools - used ≡ suc (tools - (used + 1))
before tools used h = omega arith

work_suc :
    (limit tools used : ℕ)
    → used < tools
    → work limit (tools - used) ≡ limit + 1 + work limit (tools - (used + 1))
unfolding work
work_suc limit tools used h = rw (before tools used h) refl

module _ (c : Settings) (validate : Fields → Validation) (dumps : Json → String)
    (sha256 : String → String) (text : Json → String) (parse_time : String → Option ℕ)
    (summary : Action → Json → String) where
  -- Steps of the executor, as the graph repeats them while the route is back to the planner; none
  -- when the fuel is used up.
  unfoldable pub loop : ℕ → (ℕ → Input) → ℕ → LoopState → Option LoopState
  loop zero inputs n s = none
  loop (suc fuel) inputs n s =
      let t = (execute c validate dumps sha256 text parse_time summary (inputs n) s).0 in
      let rest = loop fuel inputs (n + 1) t in
      if is_plan t.action_outcome.route then rest else some t

  in_budget-lt :
      (i : Input) (s : LoopState)
      → tool_budget_violation c dumps sha256 parse_time i.now s ≡ none
      → s.local_tool_call_count < c.max_local_tool_calls
  unfolding tool_budget_violation
  in_budget-lt i s h = ground arith

  abbrev IsSmaller : LoopState → LoopState × Option ToolCall → Type 0
  IsSmaller s r = is_plan r.0.action_outcome.route ≡ true → steps_left c r.0 < steps_left c s

  -- A step that goes back to the planner leaves fewer steps.
  execute-IsSmaller :
      (i : Input) (s : LoopState)
      → IsSmaller s (execute c validate dumps sha256 text parse_time summary i s)
  unfolding steps_left guardrail_rejection observe tool_budget_violation
  execute-IsSmaller i s =
      execute-Ends c validate dumps sha256 text parse_time summary {P = IsSmaller s} i s (record {
        rejects = λ raw reason hypotheses back. ground arith;
        forced = λ a reason hypotheses back. cc;
        finishes = λ a hypotheses reason back. cc;
        generates = λ a hypotheses back. cc;
        observes = λ a hypotheses call passes back. ground (
          arith,
          work_suc c.max_no_progress_steps c.max_local_tool_calls s.local_tool_call_count
              (in_budget-lt i s passes.in_budget),
        );
      })

  enough :
      (fuel : ℕ) (inputs : ℕ → Input) (n : ℕ) (s : LoopState)
      → steps_left c s ≤ fuel
      → is_some (loop fuel inputs n s) ≡ true
  unfolding loop steps_left
  enough zero inputs n s h = ground arith
  enough (suc fuel) inputs n s h =
      let t = (execute c validate dumps sha256 text parse_time summary (inputs n) s).0 in
      elim (Bool-cases (is_plan t.action_outcome.route)) [
        | inr ends ↦ rw ends refl
        | inl back ↦
            rw back
              (enough fuel inputs (n + 1) t (ground (arith, execute-IsSmaller (inputs n) s back)))
      ]

  -- The local loop terminates: whatever the planner proposes at each step, valid or not, and whatever
  -- the tools answer, the executor stops going back to the planner after at most as many steps as
  -- `steps_left` counts, which depends on the budgets and the counters of the state alone.
  pub loop_terminates :
      (inputs : ℕ → Input) (n : ℕ) (s : LoopState)
      → is_some (loop (steps_left c s) inputs n s) ≡ true
  loop_terminates inputs n s = enough (steps_left c s) inputs n s (omega arith)

-- ===== src/Agent/Loop/Cases.antt =====
-- What one step of the local loop can be: its five ends, and when it calls a tool.
use code_mate.Prelude.{
  ℕ, ◌≡◌, refl, String, true, false, Option, none, some, List, inl, inr, Bool-cases,
}
use code_mate.Lists.{member}
use code_mate.Json.{Json, Fields}
use code_mate.Agent.Loop.Actions.{
  Action, Request, search_code, read_file, list_files, find_symbol, find_references,
  get_import_graph, get_call_graph, run_tests, generate_patch, finish, ToolCall, tool_call,
  model_dump,
}
use code_mate.Agent.Loop.State.{Settings, generate, final, LoopState}
use code_mate.Agent.Loop.Updates.{
  Input, fingerprint, tool_budget_violation, guardrail_rejection, routed, forced_finish,
}
use code_mate.Agent.Loop.Execute.{
  Validation, invalid, valid, argument_violation, observe, execute_checked, execute_budgeted,
  execute_tool, execute_action, execute_validated, execute,
}

module _ (c : Settings) (validate : Fields → Validation) (dumps : Json → String)
    (sha256 : String → String) (text : Json → String) (parse_time : String → Option ℕ)
    (summary : Action → Json → String) where
  -- When the action passes every guard and stands for the call.
  pub record Passes (i : Input) (s : LoopState) (a : Action) (call : ToolCall) : Type 0 where
    pub accepted : validate i.raw_action ≡ valid a
    pub dispatched : tool_call c.max_read_lines a.request ≡ some call
    pub in_budget : tool_budget_violation c dumps sha256 parse_time i.now s ≡ none
    pub is_new :
        member (fingerprint c dumps sha256 parse_time a) s.local_action_fingerprints ≡ false
    pub in_bounds : argument_violation c a.request ≡ none

  pub record Ends (P : LoopState × Option ToolCall → Type 0) (i : Input) (s : LoopState)
      : Type 0 where
    pub rejects :
        (raw : Fields) (reason : String) (hypotheses : Option (List String))
        → P (guardrail_rejection c dumps sha256 parse_time i s raw reason hypotheses, none)
    pub forced :
        (a : Action) (reason : String) (hypotheses : List String)
        → P (forced_finish c dumps sha256 parse_time i s a reason hypotheses, none)
    pub finishes :
        (a : Action) (hypotheses : List String) (reason : String)
        → P (
          routed c dumps sha256 parse_time i s a hypotheses "finished" reason
              (record {
                route = final;
                ok = true;
                reason = some reason;
                guardrail = none;
                observation = none;
                evidence_id = none;
              })
              (some reason),
          none,
        )
    pub generates :
        (a : Action) (hypotheses : List String)
        → P (
          routed c dumps sha256 parse_time i s a hypotheses "accepted"
              "Patch generation authorized by the planner."
              (record {
                route = generate;
                ok = true;
                reason = none;
                guardrail = none;
                observation = none;
                evidence_id = none;
              })
              none,
          none,
        )
    pub observes :
        (a : Action) (hypotheses : List String) (call : ToolCall)
        → Passes i s a call
        → P (
          observe c validate dumps sha256 text parse_time summary i s a hypotheses (i.tools call),
          some call,
        )

  checked-Ends :
      {P : LoopState × Option ToolCall → Type 0} {i : Input} {s : LoopState} (ends : Ends P i s)
      (a : Action) (hypotheses : List String) (call : ToolCall) (violation : Option String)
      → (violation ≡ none → Passes i s a call)
      → P (
          execute_checked c validate dumps sha256 text parse_time summary i s a hypotheses call
            violation)
  unfolding execute_checked
  checked-Ends ends a hypotheses call (some reason) passes = ends.rejects _ reason (some hypotheses)
  checked-Ends ends a hypotheses call none passes = ends.observes a hypotheses call (passes refl)

  budgeted-Ends :
      {P : LoopState × Option ToolCall → Type 0} {i : Input} {s : LoopState} (ends : Ends P i s)
      (a : Action) (hypotheses : List String) (call : ToolCall) (violation : Option String)
      → validate i.raw_action ≡ valid a
      → tool_call c.max_read_lines a.request ≡ some call
      → tool_budget_violation c dumps sha256 parse_time i.now s ≡ violation
      → P (
          execute_budgeted c validate dumps sha256 text parse_time summary i s a hypotheses call
            violation)
  unfolding execute_budgeted
  budgeted-Ends ends a hypotheses call (some reason) accepted dispatched over =
      ends.forced a reason hypotheses
  budgeted-Ends {P} {i} {s} ends a hypotheses call none accepted dispatched in_budget =
      elim (Bool-cases
        (member (fingerprint c dumps sha256 parse_time a) s.local_action_fingerprints)) [
          | inl old ↦
              rw old (ends.rejects (model_dump a) "duplicate_local_action" (some hypotheses))
          | inr is_new ↦ rw is_new (
              checked-Ends ends a hypotheses call (argument_violation c a.request) (λ in_bounds.
                record {
                  accepted = accepted;
                  dispatched = dispatched;
                  in_budget = in_budget;
                  is_new = is_new;
                  in_bounds = in_bounds;
                }))
        ]

  execute_tool-Ends :
      {P : LoopState × Option ToolCall → Type 0} {i : Input} {s : LoopState} (ends : Ends P i s)
      (a : Action) (hypotheses : List String) (call : ToolCall)
      → validate i.raw_action ≡ valid a
      → tool_call c.max_read_lines a.request ≡ some call
      → P (execute_tool c validate dumps sha256 text parse_time summary i s a hypotheses call)
  unfolding execute_tool
  execute_tool-Ends ends a hypotheses call accepted dispatched =
      budgeted-Ends ends a hypotheses call _ accepted dispatched refl

  execute_action-Ends :
      {P : LoopState × Option ToolCall → Type 0} {i : Input} {s : LoopState} (ends : Ends P i s)
      (a : Action) (r : Request)
      → validate i.raw_action ≡ valid a
      → a.request ≡ r
      → P (execute_action c validate dumps sha256 text parse_time summary i s a r)
  unfolding execute_action tool_call
  execute_action-Ends ends a (finish reason) v e = ends.finishes a _ reason
  execute_action-Ends ends a generate_patch v e = ends.generates a _
  execute_action-Ends ends a (search_code q k) v e = execute_tool-Ends ends a _ _ v (rw e refl)
  execute_action-Ends ends a (read_file p f t) v e = execute_tool-Ends ends a _ _ v (rw e refl)
  execute_action-Ends ends a (list_files p) v e = execute_tool-Ends ends a _ _ v (rw e refl)
  execute_action-Ends ends a (find_symbol s) v e = execute_tool-Ends ends a _ _ v (rw e refl)
  execute_action-Ends ends a (find_references s) v e = execute_tool-Ends ends a _ _ v (rw e refl)
  execute_action-Ends ends a (get_import_graph p d n) v e =
      execute_tool-Ends ends a _ _ v (rw e refl)
  execute_action-Ends ends a (get_call_graph s d n) v e = execute_tool-Ends ends a _ _ v (rw e refl)
  execute_action-Ends ends a (run_tests t) v e = execute_tool-Ends ends a _ _ v (rw e refl)

  validated-Ends :
      {P : LoopState × Option ToolCall → Type 0} {i : Input} {s : LoopState} (ends : Ends P i s)
      (v : Validation)
      → validate i.raw_action ≡ v
      → P (execute_validated c validate dumps sha256 text parse_time summary i s v)
  unfolding execute_validated
  validated-Ends ends (invalid errors) is = ends.rejects _ _ none
  validated-Ends ends (valid a) is = execute_action-Ends ends a a.request is refl

  -- A property of what a step returns, from each of its ends.
  pub execute-Ends :
      {P : LoopState × Option ToolCall → Type 0} (i : Input) (s : LoopState)
      → Ends P i s
      → P (execute c validate dumps sha256 text parse_time summary i s)
  unfolding execute
  execute-Ends i s ends = validated-Ends ends (validate i.raw_action) refl

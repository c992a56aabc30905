-- ===== src/Agent/Loop/Execute.antt =====
-- `LocalAgentExecutor.execute` of backend/app/agent/loop.py: one step of the local loop, with the call
-- of a tool that it makes, if any. Parameters, besides those of the updates: pydantic's `validate`,
-- Python's `str` as `text`, and `summary` for the wording of an observation, which Summary has. The
-- result of read_file is a dict, as AgentTools returns it; a tool that raises ends the step without a
-- state.
use Prim.Native.String.{◌++◌ as str_append}
use code_mate.Prelude.{
  ℕ, ◌+◌, String, Bool, true, false, not, ◌&&◌, ◌||◌, Option, none, some, List, [], ◌∷◌, ◌++◌, ltb,
  leb, if◌then◌else◌,
}
use code_mate.Lists.{last, member}
use code_mate.Text.{take}
use code_mate.Json.{Json, Fields, str, obj, get, truthy, or_empty, mapping_or_none}
use code_mate.Dict.{insert}
use code_mate.Agent.Loop.Actions.{
  Action, Request, search_code, read_file, find_symbol, find_references, get_import_graph,
  get_call_graph, run_tests, generate_patch, finish, ToolCall, tool_call, action_name, model_dump,
  end_line_or,
}
use code_mate.Agent.Loop.State.{
  Settings, plan, generate, final, Evidence, LoopState, diagnosis_text,
}
use code_mate.Agent.Loop.Updates.{
  Input, append_bounded_unique, fingerprint, tool_budget_violation, append_history,
  guardrail_rejection, routed, forced_finish,
}

-- What pydantic answers: the text of its errors, or an action.
pub data Validation : Type 0 where
  invalid : String → Validation
  valid : Action → Validation

-- `made_progress` of `_build_evidence`
abbrev pub shows_progress : Json → Bool
shows_progress (obj d) =
    truthy (get "content" d)
    || truthy (get "tests_ran" d)
    || truthy (get "nodes" d)
    || truthy (get "edges" d)
shows_progress v = truthy v

-- `int(state.get("no_progress_count", 0)) + 1`, or none after progress.
abbrev pub next_no_progress : Bool → ℕ → ℕ
next_no_progress true n = 0
next_no_progress false n = n + 1

-- The tests of `ReadFile` and `RunTests`, with the reason to reject. `end - start + 1 > max` has its
-- start on the other side.
unfoldable pub argument_violation : Settings → Request → Option String
argument_violation c (read_file path start_line end_line) =
    if ltb (start_line + c.max_read_lines) (end_line_or c.max_read_lines start_line end_line + 1)
    then some "read_line_budget_exceeded"
    else none
argument_violation c (run_tests command) =
    if member command c.allowed_test_commands then none else some "test_command_not_allowlisted"
argument_violation c r = none

-- What the result adds to the files, chunks, graphs and tests of the state.
unfoldable pub with_result : (Json → String) → Request → Json → LoopState → LoopState
with_result text (read_file path start_line end_line) result s =
    let content = get "content" (or_empty (mapping_or_none result)) in
    record s { files = insert path (text (if truthy content then content else str "")) s.files }
with_result text (search_code query top_k) result s = record s { retrieved_chunks = result }
with_result text (find_symbol symbol) result s = record s { retrieved_chunks = result }
with_result text (find_references symbol) result s = record s { retrieved_chunks = result }
with_result text (get_import_graph path direction depth) result s = record s {
  code_graphs = last 4 (s.code_graphs ++ (result ∷ []));
}
with_result text (get_call_graph symbol direction depth) result s = record s {
  code_graphs = last 4 (s.code_graphs ++ (result ∷ []));
}
with_result text (run_tests command) result s = record s { diagnostic_test_result = result }
with_result text r result s = s

module _ (c : Settings) (validate : Fields → Validation) (dumps : Json → String)
    (sha256 : String → String) (text : Json → String) (parse_time : String → Option ℕ)
    (summary : Action → Json → String) where
  -- The item of `_build_evidence`.
  abbrev pub evidence_of : Action → Json → Evidence
  evidence_of a result = record {
    id = take 16 (sha256 (dumps result));
    action = action_name a.request;
    summary = summary a result;
    result_fingerprint = sha256 (dumps result);
  }

  -- `execute` from the dispatch on, with the result of the tool.
  unfoldable pub observe : Input → LoopState → Action → List String → Json → LoopState
  unfolding with_result
  observe i s a hypotheses result =
      let item = evidence_of a result in
      let is_known = member item.result_fingerprint s.evidence_fingerprints in
      let evidence =
        if is_known then s.evidence else last c.max_evidence_items (s.evidence ++ (item ∷ [])) in
      let evidence_fingerprints =
        if is_known
        then s.evidence_fingerprints
        else last c.max_evidence_items
            (s.evidence_fingerprints ++ (item.result_fingerprint ∷ [])) in
      let no_progress_count =
        next_no_progress (not is_known && shows_progress result) s.no_progress_count in
      let stops = leb c.max_no_progress_steps no_progress_count in
      let t = with_result text a.request result s in
      record t {
        current_action = model_dump a;
        action_outcome = record {
          route = if stops then final else plan;
          ok = true;
          reason = none;
          guardrail = none;
          observation = some item.summary;
          evidence_id = some item.id;
        };
        action_history = append_history c dumps sha256 parse_time i s a "completed" item.summary;
        hypotheses = hypotheses;
        evidence = evidence;
        evidence_fingerprints = evidence_fingerprints;
        local_action_fingerprints =
            last c.max_action_history
              (s.local_action_fingerprints ++ (fingerprint c dumps sha256 parse_time a ∷ []));
        local_tool_call_count = s.local_tool_call_count + 1;
        no_progress_count = no_progress_count;
        finish_reason = if stops then some "agent_no_progress_limit_reached" else none;
        diagnosis = diagnosis_text hypotheses evidence;
      }

  -- The rejection of an action that has been validated.
  abbrev pub reject_action : Input → LoopState → Action → List String → String → LoopState
  reject_action i s a hypotheses reason =
      guardrail_rejection c dumps sha256 parse_time i s (model_dump a) reason (some hypotheses)

  -- `execute` from the tests of the arguments on.
  unfoldable pub execute_checked :
      Input
      → LoopState
      → Action
      → List String
      → ToolCall
      → Option String
      → LoopState × Option ToolCall
  unfolding observe
  execute_checked i s a hypotheses call (some reason) =
      (reject_action i s a hypotheses reason, none)
  execute_checked i s a hypotheses call none = (observe i s a hypotheses (i.tools call), some call)

  -- `execute` for a local tool, with the violation of its budget.
  unfoldable pub execute_budgeted :
      Input
      → LoopState
      → Action
      → List String
      → ToolCall
      → Option String
      → LoopState × Option ToolCall
  unfolding execute_checked argument_violation
  execute_budgeted i s a hypotheses call (some reason) =
      (forced_finish c dumps sha256 parse_time i s a reason hypotheses, none)
  execute_budgeted i s a hypotheses call none =
      if member (fingerprint c dumps sha256 parse_time a) s.local_action_fingerprints
      then (reject_action i s a hypotheses "duplicate_local_action", none)
      else execute_checked i s a hypotheses call (argument_violation c a.request)

  -- `execute` for a local tool, from its budget on.
  unfoldable pub execute_tool :
      Input → LoopState → Action → List String → ToolCall → LoopState × Option ToolCall
  unfolding execute_budgeted
  execute_tool i s a hypotheses call =
      execute_budgeted i s a hypotheses call
        (tool_budget_violation c dumps sha256 parse_time i.now s)

  -- `execute` for an action that pydantic accepts.
  unfoldable pub execute_action : Input → LoopState → Action → Request → LoopState × Option ToolCall
  unfolding execute_tool
  execute_action i s a (finish reason) = (
    routed c dumps sha256 parse_time i s a (append_bounded_unique s.hypotheses a.hypothesis 20)
        "finished" reason
        (record {
          route = final;
          ok = true;
          reason = some reason;
          guardrail = none;
          observation = none;
          evidence_id = none;
        })
        (some reason),
    none,
  )
  execute_action i s a generate_patch = (
    routed c dumps sha256 parse_time i s a (append_bounded_unique s.hypotheses a.hypothesis 20)
        "accepted" "Patch generation authorized by the planner."
        (record {
          route = generate;
          ok = true;
          reason = none;
          guardrail = none;
          observation = none;
          evidence_id = none;
        })
        none,
    none,
  )
  execute_action i s a r = elim (tool_call c.max_read_lines r) [
    | none ↦ (
      guardrail_rejection c dumps sha256 parse_time i s i.raw_action "action_not_whitelisted" none,
      none,
    )
    | some call ↦ execute_tool i s a (append_bounded_unique s.hypotheses a.hypothesis 20) call
  ]

  -- `execute`, after pydantic.
  unfoldable pub execute_validated : Input → LoopState → Validation → LoopState × Option ToolCall
  unfolding execute_action
  execute_validated i s (invalid errors) = (
    guardrail_rejection c dumps sha256 parse_time i s i.raw_action
        (str_append "invalid_action_schema: " errors) none,
    none,
  )
  execute_validated i s (valid a) = execute_action i s a a.request

  -- `execute`
  unfoldable pub execute : Input → LoopState → LoopState × Option ToolCall
  unfolding execute_validated
  execute i s = execute_validated i s (validate i.raw_action)

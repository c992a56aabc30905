-- ===== src/Agent/Graph/Nodes.antt =====
-- What each node of `AgentService._nodes` (backend/app/services/agent_service.py) does to the
-- fields of the state. What a tool, the model or a remote server returns is any value, so a node
-- is a relation between the state that it reads and the state after its update is merged.
use code_mate.Prelude.{ℕ, ◌+◌, ◌<◌, String, Bool, false, Option, none, some, if◌then◌else◌}
use code_mate.Json.{null, bool, num, pos, str, arr, nil, Fields, end, field, get_default, truthy}
use code_mate.Agent.State.{FixAgentState, get_or, entry}
use code_mate.Agent.Graph.{
  Node, inspect_repository, reproduce_failure, initialize_agent_loop, plan_next_action,
  execute_local_action, plan_mcp_tools, call_mcp_tools, observe_mcp, pause_for_approval,
  pause_for_reconciliation, generate_patch, apply_patch, targeted_tests, regression_checks,
  reflect_node, final_answer,
}

-- `AgentService._initial_state`, with the settings' limits.
unfoldable pub initial_state : ℕ → ℕ → ℕ → FixAgentState
initial_state max_iterations max_rounds max_calls = record {
  baseline_test_result = some end;
  apply_result = none;
  targeted_test_result = some end;
  regression_test_result = some end;
  action_outcome = some end;
  finish_reason = none;
  patch_is_duplicate = some false;
  mcp_tool_plan = some end;
  mcp_pending_approval_id = none;
  mcp_pending_execution_id = none;
  mcp_router_round = some 0;
  mcp_max_rounds = some max_rounds;
  mcp_call_count = some 0;
  mcp_max_calls = some max_calls;
  resume_from = none;
  iterations = some 0;
  max_iterations = some max_iterations;
}

-- The plan of no calls that `plan_mcp_tools` returns when there is no router or no round is left.
abbrev pub empty_plan : Fields
empty_plan = field "calls" (arr nil) (field "rejected" (arr nil) end)

-- The record that `targeted_tests` writes when the patch did not apply.
abbrev pub patch_error_result : Fields → Fields
patch_error_result apply_result = field "passed" (bool false) (
    field "exit_code" (get_default "exit_code" apply_result (num (pos 1))) (
      field "stdout" (get_default "stdout" apply_result (str "")) (
        field "stderr" (get_default "stderr" apply_result (str "Patch did not apply.")) (
          field "command" null (
            field "tests_ran" (bool false) (
              field "timed_out" (bool false) (
                field "skipped_reason" null (
                  field "failure_kind" (str "patch_error")
                    (field "phase" (str "targeted") end)))))))))

-- `targeted_tests`, given what the sandbox reports.
unfoldable pub run_targeted_tests : Fields → FixAgentState → FixAgentState
run_targeted_tests reported s = record s {
  targeted_test_result = some (
      if truthy (entry s.apply_result "ok")
      then reported
      else patch_error_result (get_or s.apply_result end));
  regression_test_result = some end;
  iterations = some (get_or s.iterations 0 + 1);
}

-- The updates of the other nodes, merged into the state.
module _ (s : FixAgentState) where
  -- `reproduce_failure`
  abbrev pub with_baseline : Fields → FixAgentState
  with_baseline result = record s { baseline_test_result = some result }

  -- `execute_local_action`: every update of the local executor sets these two.
  abbrev pub with_action : Fields → Option String → FixAgentState
  with_action outcome reason = record s { action_outcome = some outcome; finish_reason = reason }

  -- `plan_mcp_tools`, on its early returns and at its end.
  abbrev pub with_empty_plan : FixAgentState
  with_empty_plan = record s { mcp_tool_plan = some empty_plan }

  abbrev pub with_plan : Fields → Option String → FixAgentState
  with_plan plan approval = record s {
    mcp_tool_plan = some plan;
    mcp_pending_approval_id = approval;
  }

  -- `call_mcp_tools`, after its calls and when one of them is left open.
  abbrev pub with_results : ℕ → FixAgentState
  with_results calls = record s {
    mcp_router_round = some (get_or s.mcp_router_round 0 + 1);
    mcp_call_count = some (get_or s.mcp_call_count 0 + calls);
    mcp_pending_execution_id = none;
  }

  abbrev pub with_pending_execution : String → FixAgentState
  with_pending_execution execution = record s { mcp_pending_execution_id = some execution }

  -- `observe_mcp`
  abbrev pub with_observations : FixAgentState
  with_observations = record s {
    mcp_tool_plan = some end;
    mcp_pending_approval_id = none;
    mcp_pending_execution_id = none;
    resume_from = none;
  }

  -- `generate_patch`
  abbrev pub with_patch : Bool → FixAgentState
  with_patch duplicate = record s { patch_is_duplicate = some duplicate }

  -- `apply_patch`
  abbrev pub with_apply_result : Fields → FixAgentState
  with_apply_result result = record s { apply_result = some result }

  -- `regression_checks`
  abbrev pub with_regression : Fields → FixAgentState
  with_regression result = record s { regression_test_result = some result }

  -- `reflect`
  abbrev pub with_reflection : FixAgentState
  with_reflection = record s {
    patch_is_duplicate = some false;
    apply_result = some end;
    action_outcome = some (field "route" (str "plan") end);
  }

-- One execution of a node: the state that it reads, and the state with its update.
pub data Runs : Node → FixAgentState → FixAgentState → Type 0 where
  inspected : (s : FixAgentState) → Runs inspect_repository s s
  reproduced :
      (s : FixAgentState) (result : Fields) → Runs reproduce_failure s (with_baseline s result)
  initialized : (s : FixAgentState) → Runs initialize_agent_loop s s
  planned : (s : FixAgentState) → Runs plan_next_action s s
  acted :
      (s : FixAgentState) (outcome : Fields) (reason : Option String)
      → Runs execute_local_action s (with_action s outcome reason)
  no_mcp_plan : (s : FixAgentState) → Runs plan_mcp_tools s (with_empty_plan s)
  mcp_planned :
      (s : FixAgentState) (plan : Fields) (approval : Option String)
      → get_or s.mcp_router_round 0 < get_or s.mcp_max_rounds 0
      → Runs plan_mcp_tools s (with_plan s plan approval)
  no_mcp_call : (s : FixAgentState) → Runs call_mcp_tools s s
  mcp_called : (s : FixAgentState) (calls : ℕ) → Runs call_mcp_tools s (with_results s calls)
  mcp_interrupted :
      (s : FixAgentState) (execution : String)
      → Runs call_mcp_tools s (with_pending_execution s execution)
  observed : (s : FixAgentState) → Runs observe_mcp s (with_observations s)
  paused : (s : FixAgentState) → Runs pause_for_approval s s
  reconciling : (s : FixAgentState) → Runs pause_for_reconciliation s s
  generated :
      (s : FixAgentState) (duplicate : Bool) → Runs generate_patch s (with_patch s duplicate)
  applied : (s : FixAgentState) (result : Fields) → Runs apply_patch s (with_apply_result s result)
  tested :
      (s : FixAgentState) (reported : Fields)
      → Runs targeted_tests s (run_targeted_tests reported s)
  checked :
      (s : FixAgentState) (result : Fields) → Runs regression_checks s (with_regression s result)
  reflected : (s : FixAgentState) → Runs reflect_node s (with_reflection s)
  answered : (s : FixAgentState) → Runs final_answer s s

-- ===== src/Agent/Graph/Runs.antt =====
-- Runs of the repair graph: a node executes, and the next one is chosen on the state that it
-- leaves. A run that paused is entered again from the checkpoint that the pausing node saved.
use code_mate.Prelude.{ℕ, ◌+◌, ◌≡◌, String, Bool, true, none, some, ltb, if◌then◌else◌}
use code_mate.Json.{end}
use code_mate.Agent.State.{FixAgentState, get_or}
use code_mate.Agent.Graph.{
  Node, inspect_repository, plan_mcp_tools, call_mcp_tools, goto, enter, next,
}
use code_mate.Agent.Graph.Nodes.{Runs, initial_state}

-- The checkpoint that `plan_mcp_tools` saves with an approval request, and that the approval's
-- service completes (`create_pending` sets the last two keys).
unfoldable pub approval_checkpoint : String → FixAgentState → FixAgentState
approval_checkpoint approval s = record s {
  mcp_tool_plan = some end;
  mcp_pending_approval_id = some approval;
  resume_from = some "mcp_observe";
}

-- The checkpoint that `call_mcp_tools` saves before each remote call.
unfoldable pub execution_checkpoint : FixAgentState → FixAgentState
execution_checkpoint s = record s { mcp_pending_execution_id = none; resume_from = some "mcp_call" }

-- The state with which `resume_from_approval` enters the graph again, given whether the decision of the
-- approval is `approved`: it counts the round, and the call where there was one.
unfoldable pub resume_from_approval : Bool → FixAgentState → FixAgentState
resume_from_approval is_approved s = record s {
  mcp_router_round = some (get_or s.mcp_router_round 0 + 1);
  mcp_call_count = some (get_or s.mcp_call_count 0 + (if is_approved then 1 else 0));
  mcp_pending_approval_id = none;
  resume_from = some "mcp_observe";
}

-- The state with which `resume_from_execution` enters the graph again.
unfoldable pub resume_from_execution : FixAgentState → FixAgentState
resume_from_execution s = record s { resume_from = some "mcp_call" }

-- `plan_mcp_tools` asks for an approval only while a round is left.
abbrev pub has_round : FixAgentState → Bool
has_round s = ltb (get_or s.mcp_router_round 0) (get_or s.mcp_max_rounds 0)

-- The node about to run, and the state that it will read.
pub data Reaches (max_iterations max_rounds max_calls : ℕ) : Node → FixAgentState → Type 0 where
  started :
      Reaches max_iterations max_rounds max_calls inspect_repository
        (initial_state max_iterations max_rounds max_calls)
  moved :
      {n m : Node} {s t : FixAgentState}
      → Reaches max_iterations max_rounds max_calls n s
      → Runs n s t
      → next n t ≡ goto m
      → Reaches max_iterations max_rounds max_calls m t
  resumed_approval :
      {m : Node} {s : FixAgentState} (approval : String) (is_approved : Bool)
      → Reaches max_iterations max_rounds max_calls plan_mcp_tools s
      → has_round s ≡ true
      → enter (resume_from_approval is_approved (approval_checkpoint approval s)) ≡ goto m
      → Reaches max_iterations max_rounds max_calls m
          (resume_from_approval is_approved (approval_checkpoint approval s))
  resumed_execution :
      {m : Node} {s : FixAgentState}
      → Reaches max_iterations max_rounds max_calls call_mcp_tools s
      → enter (resume_from_execution (execution_checkpoint s)) ≡ goto m
      → Reaches max_iterations max_rounds max_calls m
          (resume_from_execution (execution_checkpoint s))

-- ===== src/Agent/Graph.antt =====
-- `build_fix_graph` of backend/app/agent/graph.py: the nodes of the repair graph, its edges and
-- conditional edges, and its entry point.
pub mod Nodes
pub mod Runs
pub mod Invariant
pub mod Order
use code_mate.Agent.State.{FixAgentState}
use code_mate.Agent.Routing.{
  Route, final, continue, reflect, regression, plan, mcp, apply, pause, call, generate, observe,
  start, route_after_reproduction, route_after_targeted_tests, route_after_regression_checks,
  after_reflect, after_local_action, after_patch_generation, after_mcp_plan, after_mcp_observe,
  after_mcp_call, graph_entry,
}

pub data Node : Type 0 where
  inspect_repository reproduce_failure initialize_agent_loop plan_next_action : Node
  execute_local_action plan_mcp_tools call_mcp_tools observe_mcp pause_for_approval : Node
  pause_for_reconciliation generate_patch apply_patch targeted_tests regression_checks : Node
  reflect_node final_answer : Node

-- Where a run goes next: to a node, to END, or nowhere, when a route is missing from its map.
pub data Target : Type 0 where
  goto : Node → Target
  end_run no_route : Target

abbrev pub entry_target : Route → Target
entry_target start = goto inspect_repository
entry_target call = goto call_mcp_tools
entry_target observe = goto observe_mcp
entry_target r = no_route

abbrev pub reproduction_target : Route → Target
reproduction_target continue = goto initialize_agent_loop
reproduction_target final = goto final_answer
reproduction_target r = no_route

abbrev pub local_action_target : Route → Target
local_action_target plan = goto plan_next_action
local_action_target mcp = goto plan_mcp_tools
local_action_target final = goto final_answer
local_action_target r = no_route

abbrev pub mcp_plan_target : Route → Target
mcp_plan_target call = goto call_mcp_tools
mcp_plan_target pause = goto pause_for_approval
mcp_plan_target generate = goto generate_patch
mcp_plan_target r = no_route

abbrev pub mcp_call_target : Route → Target
mcp_call_target pause = goto pause_for_reconciliation
mcp_call_target observe = goto observe_mcp
mcp_call_target r = no_route

abbrev pub mcp_observe_target : Route → Target
mcp_observe_target plan = goto plan_mcp_tools
mcp_observe_target generate = goto generate_patch
mcp_observe_target r = no_route

abbrev pub patch_generation_target : Route → Target
patch_generation_target apply = goto apply_patch
patch_generation_target plan = goto plan_next_action
patch_generation_target r = no_route

abbrev pub targeted_tests_target : Route → Target
targeted_tests_target regression = goto regression_checks
targeted_tests_target reflect = goto reflect_node
targeted_tests_target final = goto final_answer
targeted_tests_target r = no_route

abbrev pub regression_checks_target : Route → Target
regression_checks_target reflect = goto reflect_node
regression_checks_target final = goto final_answer
regression_checks_target r = no_route

abbrev pub reflect_target : Route → Target
reflect_target plan = goto plan_next_action
reflect_target final = goto final_answer
reflect_target r = no_route

-- `set_conditional_entry_point`
unfoldable pub enter : FixAgentState → Target
unfolding graph_entry
enter s = entry_target (graph_entry s)

-- The edges out of each node, on the state that the node leaves.
unfoldable pub next : Node → FixAgentState → Target
unfolding route_after_reproduction route_after_targeted_tests route_after_regression_checks
    after_reflect after_local_action after_patch_generation after_mcp_plan after_mcp_observe
    after_mcp_call
next inspect_repository s = goto reproduce_failure
next reproduce_failure s = reproduction_target (route_after_reproduction s)
next initialize_agent_loop s = goto plan_next_action
next plan_next_action s = goto execute_local_action
next execute_local_action s = local_action_target (after_local_action s)
next plan_mcp_tools s = mcp_plan_target (after_mcp_plan s)
next pause_for_approval s = end_run
next call_mcp_tools s = mcp_call_target (after_mcp_call s)
next pause_for_reconciliation s = end_run
next observe_mcp s = mcp_observe_target (after_mcp_observe s)
next generate_patch s = patch_generation_target (after_patch_generation s)
next apply_patch s = goto targeted_tests
next targeted_tests s = targeted_tests_target (route_after_targeted_tests s)
next regression_checks s = regression_checks_target (route_after_regression_checks s)
next reflect_node s = reflect_target (after_reflect s)
next final_answer s = end_run

-- ===== src/Agent/Routing.antt =====
-- The routes of the repair graph: `route_after_*` of backend/app/agent/verification.py and
-- `after_*`, `graph_entry` of backend/app/agent/graph.py. A route name is a constructor.
use code_mate.Prelude.{false, leb, if◌then◌else◌}
use code_mate.Json.{truthy, is_text}
use code_mate.Agent.State.{FixAgentState, get_or, entry, has_text, equals_text}
use code_mate.Agent.Outcome.{
  TestOutcome, passed, failed, skipped, infra_error, not_run, classify_test_result,
}

pub data Route : Type 0 where
  final continue reflect regression plan mcp apply pause call generate observe start : Route

-- `_retry_or_finish`
unfoldable pub retry_or_finish : FixAgentState → Route
retry_or_finish s =
    if leb (get_or s.max_iterations 3) (get_or s.iterations 0) then final else reflect

abbrev pub reproduction_route : TestOutcome → Route
reproduction_route passed = final
reproduction_route infra_error = final
reproduction_route o = continue

unfoldable pub route_after_reproduction : FixAgentState → Route
route_after_reproduction s = reproduction_route (classify_test_result s.baseline_test_result)

abbrev pub targeted_route : TestOutcome → Route → Route
targeted_route passed retry = regression
targeted_route skipped retry = final
targeted_route infra_error retry = final
targeted_route not_run retry = final
targeted_route failed retry = retry

unfoldable pub route_after_targeted_tests : FixAgentState → Route
unfolding retry_or_finish
route_after_targeted_tests s =
    if truthy (entry s.apply_result "ok")
    then targeted_route (classify_test_result s.targeted_test_result) (retry_or_finish s)
    else retry_or_finish s

abbrev pub regression_route : TestOutcome → Route → Route
regression_route failed retry = retry
regression_route o retry = final

unfoldable pub route_after_regression_checks : FixAgentState → Route
unfolding retry_or_finish
route_after_regression_checks s =
    regression_route (classify_test_result s.regression_test_result) (retry_or_finish s)

unfoldable pub after_reflect : FixAgentState → Route
after_reflect s = if has_text s.finish_reason then final else plan

unfoldable pub after_local_action : FixAgentState → Route
after_local_action s =
    if is_text (entry s.action_outcome "route") "generate"
    then mcp
    else if is_text (entry s.action_outcome "route") "final"
    then final
    else plan

unfoldable pub after_patch_generation : FixAgentState → Route
after_patch_generation s = if get_or s.patch_is_duplicate false then plan else apply

unfoldable pub after_mcp_plan : FixAgentState → Route
after_mcp_plan s =
    if has_text s.mcp_pending_approval_id
    then pause
    else if truthy (entry s.mcp_tool_plan "calls")
    then call
    else generate

unfoldable pub after_mcp_observe : FixAgentState → Route
after_mcp_observe s =
    if leb (get_or s.mcp_max_rounds 0) (get_or s.mcp_router_round 0)
    then generate
    else if leb (get_or s.mcp_max_calls 0) (get_or s.mcp_call_count 0)
    then generate
    else plan

unfoldable pub after_mcp_call : FixAgentState → Route
after_mcp_call s = if has_text s.mcp_pending_execution_id then pause else observe

unfoldable pub graph_entry : FixAgentState → Route
graph_entry s =
    if equals_text s.resume_from "mcp_call"
    then call
    else if equals_text s.resume_from "mcp_observe"
    then observe
    else start

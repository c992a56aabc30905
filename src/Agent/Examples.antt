-- ===== src/Agent/Examples.antt =====
-- One repair run, step by step, with a pause for an approval, and the theorems about runs at its states.
use code_mate.Prelude.{◌≡◌, refl, true, false, none, some}
use code_mate.Json.{bool, num, pos, str, Fields, end, field, get}
use code_mate.Agent.State.{FixAgentState}
use code_mate.Agent.Outcome.{classify_test_result}
use code_mate.Agent.Verdict.Soundness.{IsRepaired}
use code_mate.Agent.Graph.{
  reproduce_failure, initialize_agent_loop, plan_next_action, execute_local_action, plan_mcp_tools,
  generate_patch, apply_patch, targeted_tests, regression_checks, final_answer, goto, next,
  observe_mcp, enter,
}
use code_mate.Agent.Graph.Nodes.{
  initial_state, inspected, reproduced, initialized, planned, acted, no_mcp_plan, generated,
  applied, tested, checked, observed, run_targeted_tests, empty_plan,
}
use code_mate.Agent.Graph.Runs.{
  Reaches, started, moved, resumed_approval, resume_from_approval, approval_checkpoint,
}
use code_mate.Agent.Graph.Order.{verified_from_regression}

abbrev failing_record : Fields
failing_record = field "tests_ran" (bool true) (field "exit_code" (num (pos 1)) end)

abbrev passing_record : Fields
passing_record =
    field "tests_ran" (bool true) (field "passed" (bool true) (field "exit_code" (num (pos 0)) end))

abbrev applied_record : Fields
applied_record = field "ok" (bool true) end

abbrev generate_outcome : Fields
generate_outcome = field "route" (str "generate") end

-- The state that reads the targeted tests' result, and then the regression tests'.
abbrev before_checks : FixAgentState
before_checks = record {
  baseline_test_result = some failing_record;
  apply_result = some applied_record;
  targeted_test_result = some passing_record;
  regression_test_result = some end;
  action_outcome = some generate_outcome;
  finish_reason = none;
  patch_is_duplicate = some false;
  mcp_tool_plan = some empty_plan;
  mcp_pending_approval_id = none;
  mcp_pending_execution_id = none;
  mcp_router_round = some 1;
  mcp_max_rounds = some 2;
  mcp_call_count = some 1;
  mcp_max_calls = some 5;
  resume_from = none;
  iterations = some 1;
  max_iterations = some 3;
}

abbrev after_checks : FixAgentState
after_checks = record before_checks { regression_test_result = some passing_record }

abbrev repair_run : Reaches 3 2 5 regression_checks before_checks
unfolding next initial_state run_targeted_tests classify_test_result get enter resume_from_approval
    approval_checkpoint
repair_run =
    let r1 : Reaches 3 2 5 reproduce_failure (initial_state 3 2 5) =
      moved started (inspected _) refl in
    let s2 : FixAgentState = record (initial_state 3 2 5) {
      baseline_test_result = some failing_record;
    } in
    let r2 : Reaches 3 2 5 initialize_agent_loop s2 = moved r1 (reproduced _ failing_record) refl in
    let r3 : Reaches 3 2 5 plan_next_action s2 = moved r2 (initialized _) refl in
    let r4 : Reaches 3 2 5 execute_local_action s2 = moved r3 (planned _) refl in
    let s5 : FixAgentState = record s2 {
      action_outcome = some generate_outcome;
      finish_reason = none;
    } in
    let r5 : Reaches 3 2 5 plan_mcp_tools s5 = moved r4 (acted _ generate_outcome none) refl in
    let sa : FixAgentState = resume_from_approval true (approval_checkpoint "a1" s5) in
    let ra : Reaches 3 2 5 observe_mcp sa = resumed_approval "a1" true r5 refl refl in
    let sb : FixAgentState = record sa {
      mcp_tool_plan = some end;
      mcp_pending_approval_id = none;
      mcp_pending_execution_id = none;
      resume_from = none;
    } in
    let rb : Reaches 3 2 5 plan_mcp_tools sb = moved ra (observed _) refl in
    let s6 : FixAgentState = record sb { mcp_tool_plan = some empty_plan } in
    let r6 : Reaches 3 2 5 generate_patch s6 = moved rb (no_mcp_plan _) refl in
    let r7 : Reaches 3 2 5 apply_patch s6 = moved r6 (generated _ false) refl in
    let s8 : FixAgentState = record s6 { apply_result = some applied_record } in
    let r8 : Reaches 3 2 5 targeted_tests s8 = moved r7 (applied _ applied_record) refl in
    moved r8 (tested _ passing_record) refl

evidence : IsRepaired after_checks
unfolding classify_test_result get
evidence = record {
  reproduced = refl;
  applied = refl;
  targeted_passed = refl;
  regression_passed = refl;
}

checks_passed : next regression_checks after_checks ≡ goto final_answer
unfolding next classify_test_result get
checks_passed = refl

verified_from_regression_example : regression_checks ≡ regression_checks
verified_from_regression_example =
    verified_from_regression repair_run (checked before_checks passing_record) checks_passed
      evidence

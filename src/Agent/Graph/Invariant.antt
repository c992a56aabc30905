-- ===== src/Agent/Graph/Invariant.antt =====
-- What holds of the state at each node of every run.
use code_mate.Prelude.{refl, String, ℕ, ◌≤◌, ◌<◌, ◌≡◌, Bool, true, false, some, max, arith}
use code_mate.Json.{Fields, end, get, truthy}
use code_mate.Agent.State.{FixAgentState, get_or, entry}
use code_mate.Agent.Outcome.{
  TestOutcome, passed, infra_error, not_run, classify_test_result, is_passed,
}
use code_mate.Agent.Graph.{
  Node, inspect_repository, reproduce_failure, regression_checks, targeted_tests, plan_mcp_tools,
  call_mcp_tools, final_answer, goto, next, enter,
}
use code_mate.Agent.Graph.Nodes.{empty_plan, Runs, run_targeted_tests, initial_state}
use code_mate.Agent.Graph.Runs.{
  Reaches, started, moved, resumed_approval, resumed_execution, approval_checkpoint,
  execution_checkpoint, resume_from_approval, resume_from_execution, has_round,
}

-- The nodes that a run reaches only after its baseline has been classified.
abbrev pub is_repairing : Node → Bool
is_repairing inspect_repository = false
is_repairing reproduce_failure = false
is_repairing final_answer = false
is_repairing n = true

-- The nodes from which another patch may still be tried.
abbrev pub may_patch : Node → Bool
may_patch regression_checks = false
may_patch final_answer = false
may_patch n = true

abbrev pub before_answer : Node → Bool
before_answer final_answer = false
before_answer n = true

-- `baseline_outcome not in {"passed", "infra_error"}`
abbrev pub allows_repair : TestOutcome → Bool
allows_repair passed = false
allows_repair infra_error = false
allows_repair o = true

pub record Inv (limit max_rounds : ℕ) (n : Node) (s : FixAgentState) : Type 0 where
  pub baseline_seen :
      is_repairing n ≡ true → allows_repair (classify_test_result s.baseline_test_result) ≡ true
  pub regression_open :
      before_answer n ≡ true → is_passed (classify_test_result s.regression_test_result) ≡ false
  pub limit_kept : get_or s.max_iterations 3 ≡ limit
  pub attempts : get_or s.iterations 0 ≤ max 1 limit
  pub attempt_left : may_patch n ≡ true → get_or s.iterations 0 < max 1 limit
  pub rounds_kept : get_or s.mcp_max_rounds 0 ≡ max_rounds
  pub rounds : get_or s.mcp_router_round 0 ≤ max_rounds
  pub patch_applied : n ≡ regression_checks → truthy (entry s.apply_result "ok") ≡ true
  pub targeted_passed : n ≡ regression_checks → classify_test_result s.targeted_test_result ≡ passed
  pub round_left : n ≡ call_mcp_tools → get_or s.mcp_router_round 0 < max_rounds

pub classify-end : classify_test_result (some end) ≡ not_run
unfolding classify_test_result
classify-end = refl

module _ (limit max_rounds max_calls : ℕ) where
  initial-Inv : Inv limit max_rounds inspect_repository (initial_state limit max_rounds max_calls)
  unfolding initial_state classify_test_result
  initial-Inv = ground arith

-- An empty plan never leads to a call.
module _ {limit max_rounds : ℕ} where
  no_mcp_plan-Inv :
      {m : Node} {s : FixAgentState}
      → Inv limit max_rounds plan_mcp_tools s
      → next plan_mcp_tools (record s { mcp_tool_plan = some empty_plan }) ≡ goto m
      → Inv limit max_rounds m (record s { mcp_tool_plan = some empty_plan })
  unfolding next get
  no_mcp_plan-Inv i e = ground arith

  tested-Inv :
      {m : Node} {s : FixAgentState} (reported : Fields)
      → Inv limit max_rounds targeted_tests s
      → next targeted_tests (run_targeted_tests reported s) ≡ goto m
      → Inv limit max_rounds m (run_targeted_tests reported s)
  unfolding next run_targeted_tests
  tested-Inv reported i e = ground (arith, classify-end)

module _ {limit max_rounds : ℕ} where
  pub step-Inv :
      {n m : Node} {s t : FixAgentState}
      → Inv limit max_rounds n s
      → Runs n s t
      → next n t ≡ goto m
      → Inv limit max_rounds m t
  unfolding next
  step-Inv i (Runs.inspected s) e = ground arith
  step-Inv i (Runs.reproduced s r) e = ground arith
  step-Inv i (Runs.initialized s) e = ground arith
  step-Inv i (Runs.planned s) e = ground arith
  step-Inv i (Runs.acted s o r) e = ground arith
  step-Inv i (Runs.no_mcp_plan s) e = no_mcp_plan-Inv i e
  step-Inv i (Runs.mcp_planned s p a l) e = ground arith
  step-Inv i (Runs.no_mcp_call s) e = ground arith
  step-Inv i (Runs.mcp_called s c) e = ground arith
  step-Inv i (Runs.mcp_interrupted s x) e = ground arith
  step-Inv i (Runs.observed s) e = ground arith
  step-Inv i (Runs.paused s) e = cc
  step-Inv i (Runs.reconciling s) e = cc
  step-Inv i (Runs.generated s d) e = ground arith
  step-Inv i (Runs.applied s r) e = ground arith
  step-Inv i (Runs.tested s r) e = tested-Inv r i e
  step-Inv i (Runs.checked s r) e = ground arith
  step-Inv i (Runs.reflected s) e = ground arith
  step-Inv i (Runs.answered s) e = cc

module _ {limit max_rounds : ℕ} where
  resume_from_approval-Inv :
      {m : Node} {s : FixAgentState} (approval : String) (is_approved : Bool)
      → Inv limit max_rounds plan_mcp_tools s
      → has_round s ≡ true
      → enter (resume_from_approval is_approved (approval_checkpoint approval s)) ≡ goto m
      → Inv limit max_rounds m (resume_from_approval is_approved (approval_checkpoint approval s))
  unfolding enter approval_checkpoint resume_from_approval
  resume_from_approval-Inv approval is_approved i left e = ground arith

  resume_from_execution-Inv :
      {m : Node} {s : FixAgentState}
      → Inv limit max_rounds call_mcp_tools s
      → enter (resume_from_execution (execution_checkpoint s)) ≡ goto m
      → Inv limit max_rounds m (resume_from_execution (execution_checkpoint s))
  unfolding enter execution_checkpoint resume_from_execution
  resume_from_execution-Inv i e = ground arith

-- Every state that a node of a run reads satisfies the invariant, across pauses and resumptions: the
-- stages of the repair are reached only after a baseline that allows it, no passing regression
-- result stands before the final node, the limits are kept, the attempts and the rounds stay within
-- them, and the regression tests are reached only with an applied patch and passing targeted tests.
pub Reaches-Inv :
    {limit max_rounds max_calls : ℕ} {n : Node} {s : FixAgentState}
    → Reaches limit max_rounds max_calls n s
    → Inv limit max_rounds n s
Reaches-Inv {limit} {max_rounds} {max_calls} started = initial-Inv limit max_rounds max_calls
Reaches-Inv (moved r st e) = step-Inv (Reaches-Inv r) st e
Reaches-Inv (resumed_approval a d r left e) = resume_from_approval-Inv a d (Reaches-Inv r) left e
Reaches-Inv (resumed_execution r e) = resume_from_execution-Inv (Reaches-Inv r) e

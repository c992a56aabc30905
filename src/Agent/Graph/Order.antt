-- ===== src/Agent/Graph/Order.antt =====
-- The order of the repair stages in every run: which verdicts the final node can reach, and how
-- many patches are tried.
use code_mate.Prelude.{
  ℕ, ◌+◌, ◌≤◌, ◌≡◌, ◌≢◌, refl, true, false, ◌⊎◌, inl, inr, max, arith, if◌then◌else◌,
}
use code_mate.Agent.State.{FixAgentState, get_or}
use code_mate.Agent.Outcome.{passed, classify_test_result, is_passed, is_failed}
use code_mate.Agent.Verdict.{verified_success, unverified_patch, determine_status}
use code_mate.Agent.Verdict.Soundness.{IsRepaired}
use code_mate.Agent.Graph.{
  Node, regression_checks, apply_patch, targeted_tests, final_answer, goto, no_route, enter, next,
}
use code_mate.Agent.Graph.Nodes.{Runs, run_targeted_tests}
use code_mate.Agent.Graph.Runs.{
  Reaches, started, moved, resumed_approval, resumed_execution, approval_checkpoint,
  execution_checkpoint, resume_from_approval, resume_from_execution,
}
use code_mate.Agent.Graph.Nodes.{initial_state}
use code_mate.Agent.Graph.Invariant.{Reaches-Inv, classify-end, before_answer}

-- Every route that a node's router returns is a key of that node's map of edges.
pub next-ne-no_route : (n : Node) (s : FixAgentState) → next n s ≢ no_route
unfolding next
next-ne-no_route Node.inspect_repository s = ground arith
next-ne-no_route n s = ground arith

-- Only `regression_checks` can leave a passing regression result.
keeps_open :
    {n : Node} {s t : FixAgentState}
    → Runs n s t
    → is_passed (classify_test_result s.regression_test_result) ≡ false
    → (n ≡ regression_checks) ⊎ (is_passed (classify_test_result t.regression_test_result) ≡ false)
unfolding run_targeted_tests
keeps_open (Runs.checked s r) h = inl refl
keeps_open (Runs.tested s r) h = inr (ground (arith, classify-end))
keeps_open (Runs.inspected s) h = inr h
keeps_open _ h = inr h

-- A node that has a successor is not the answer.
before_answer-next :
    {n m : Node} {s t : FixAgentState} → Runs n s t → next n t ≡ goto m → before_answer n ≡ true
unfolding next
before_answer-next (Runs.answered s) e = cc
before_answer-next _ e = refl

module _ {limit max_rounds max_calls : ℕ} {n : Node} {s t : FixAgentState} where
  -- In every run, also one that paused and was resumed, the final node is handed the evidence of a
  -- verified repair only by `regression_checks`: no other way to the final node, such as a planner
  -- that finishes early or an exhausted budget, can end in a verified run.
  pub verified_from_regression :
      Reaches limit max_rounds max_calls n s
      → Runs n s t
      → next n t ≡ goto final_answer
      → IsRepaired t
      → n ≡ regression_checks
  verified_from_regression r st e v =
      elim (keeps_open st ((Reaches-Inv r).regression_open (before_answer-next st e))) [
        | inl h ↦ h
        | inr h ↦ ground (arith, v.regression_passed)
      ]

module _ {limit max_rounds max_calls : ℕ} where
  -- In every run, once the regression tests have passed, the run goes to the final node, and it is
  -- judged verified if its baseline failed, and otherwise an unverified patch.
  regression_passed_ends :
      {s t : FixAgentState}
      → Reaches limit max_rounds max_calls regression_checks s
      → Runs regression_checks s t
      → classify_test_result t.regression_test_result ≡ passed
      → (next regression_checks t ≡ goto final_answer)
        × ((determine_status t.baseline_test_result t.targeted_test_result t.regression_test_result
              t.apply_result).0
            ≡ (if is_failed (classify_test_result t.baseline_test_result)
                then verified_success
                else unverified_patch))
  unfolding next determine_status
  regression_passed_ends r (Runs.checked s x) h = ground (arith, Reaches-Inv r)

abbrev counts_patch : Node → ℕ
counts_patch apply_patch = 1
counts_patch n = 0

-- The patches that a run has applied so far.
abbrev pub patches :
    {limit max_rounds max_calls : ℕ} {n : Node} {s : FixAgentState}
    → Reaches limit max_rounds max_calls n s
    → ℕ
patches started = 0
patches (moved {n = n} r st e) = counts_patch n + patches r
patches (resumed_approval a d r left e) = patches r
patches (resumed_execution r e) = patches r

-- A patch is counted in the state when its targeted tests run.
abbrev pending : Node → ℕ
pending targeted_tests = 1
pending n = 0

patches-step :
    {n m : Node} {s t : FixAgentState}
    → Runs n s t
    → next n t ≡ goto m
    → counts_patch n + (get_or s.iterations 0 + pending n) ≡ get_or t.iterations 0 + pending m
unfolding next run_targeted_tests
patches-step (Runs.inspected s) e = ground arith
patches-step (Runs.checked s r) e = ground arith
patches-step _ e = ground arith

patches-enter : {m : Node} (s : FixAgentState) → enter s ≡ goto m → pending m ≡ 0
unfolding enter
patches-enter s e = ground arith

patches-eq :
    {limit max_rounds max_calls : ℕ} {n : Node} {s : FixAgentState}
    (r : Reaches limit max_rounds max_calls n s)
    → patches r ≡ get_or s.iterations 0 + pending n
unfolding approval_checkpoint execution_checkpoint resume_from_approval resume_from_execution
    initial_state
patches-eq started = omega arith
patches-eq (moved r st e) = omega (arith, patches-eq r, patches-step st e)
patches-eq (resumed_approval {m = m} {s = s} a d r left e) =
    let none_pending : pending m ≡ 0 =
      patches-enter (resume_from_approval d (approval_checkpoint a s)) e in
    omega (arith, patches-eq r, none_pending)
patches-eq (resumed_execution {m = m} {s = s} r e) =
    let none_pending : pending m ≡ 0 =
      patches-enter (resume_from_execution (execution_checkpoint s)) e in
    omega (arith, patches-eq r, none_pending)

-- A run applies at most as many patches as its iteration limit allows, and at most one where the
-- limit is 0, whatever the model proposes and however often the run is paused and resumed.
pub patches-le-limit :
    {limit max_rounds max_calls : ℕ} {n : Node} {s : FixAgentState}
    (r : Reaches limit max_rounds max_calls n s)
    → patches r ≤ max 1 limit
patches-le-limit r = ground (arith, patches-eq r, Reaches-Inv r)

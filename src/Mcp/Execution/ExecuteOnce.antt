-- ===== src/Mcp/Execution/ExecuteOnce.antt =====
-- `MCPExecutionService.execute_once`: a worker claims the execution, asks the circuit breaker, calls
-- the remote tool, and records what came of it. Other workers' calls of the service can fall
-- between the claim and the record.
use Prim.Native.String.{◌++◌}
use code_mate.Prelude.{ℕ, String, true, false, not, List}
use code_mate.Json.{Json, bool, str, Fields, end, field, get, put, truthy, or_empty}
use code_mate.Mcp.Execution.Row.{Execution, Settings, reconciliation_required, Result, ok, err}
use code_mate.Mcp.Execution.Methods.{
  Claim, leased, cached, claim, complete, mark_unknown, count_hit,
}
use code_mate.Mcp.Execution.Steps.{Call, run}

-- What the worker meets after its claim: an open circuit (`MCPCircuitOpenError`, with its
-- `retry_after_seconds`), or the end of the remote call.
pub data Remote : Type 0 where
  circuit_open : Json → Remote
  returned : Fields → Remote
  quota_exceeded : Json → Json → Json → Remote
  quota_unavailable : Remote
  raised : String → Remote

-- The two last items of every result.
abbrev pub identify_call : Execution → Fields → Fields
identify_call e d = put "idempotency_key" (str e.idempotency_key) (put "execution_id" (str e.id) d)

abbrev pub circuit_result : Execution → Json → Fields
circuit_result e retry_after = identify_call e (
    field "ok" (bool false) (
      field "qualified_name" (str e.qualified_name) (
        field "error" (str "mcp_circuit_open")
          (field "server_name" (str e.server_name) (field "retry_after_seconds" retry_after end)))))

abbrev pub quota_result : Execution → String → Json → Json → Json → Fields
quota_result e error reason policy_id retry_after = identify_call e (
    field "ok" (bool false) (
      field "qualified_name" (str e.qualified_name) (
        field "error" (str error) (
          field "reason" reason
            (field "policy_id" policy_id (field "retry_after_seconds" retry_after end))))))

-- `dict(execution.result_json or {})`, after a completion.
abbrev pub reply : Result (Unit {0}) × Execution → Result Fields × Execution
reply (ok u, e) = (ok (or_empty e.result_json), e)
reply (err x, e) = (err x, e)

abbrev pub give_up : Result (Unit {0}) × Execution → Result Fields × Execution
give_up (ok u, e) = (err reconciliation_required, e)
give_up (err x, e) = (err x, e)

-- The worker holds the lease, `mine` is the row that its claim returned, and `e` is the row when
-- the outcome is recorded.
abbrev pub record_outcome :
    (Json → String) → ℕ → String → Execution → Remote → Execution → Result Fields × Execution
unfolding complete mark_unknown
record_outcome print now token mine (circuit_open retry_after) e =
    reply (complete print now token (circuit_result mine retry_after) true e)
record_outcome print now token mine (returned raw) e = reply (
    complete print now token (identify_call mine raw)
      (not (truthy (get "ok" (identify_call mine raw)))) e)
record_outcome print now token mine (quota_exceeded reason policy_id retry_after) e = reply (
    complete print now token (quota_result mine "mcp_quota_exceeded" reason policy_id retry_after)
      true e)
record_outcome print now token mine quota_unavailable e = reply (
    complete print now token
      (quota_result mine "mcp_quota_unavailable" Json.null Json.null Json.null) true e)
record_outcome print now token mine (raised message) e =
    give_up (mark_unknown now token ("Remote outcome is unknown: " ++ message) e)

-- The reply to a worker that finds the execution over.
abbrev pub deduplicated : Execution → Fields
deduplicated e =
    put "deduplicated" (bool true) (put "execution_id" (str e.id) (or_empty e.result_json))

abbrev pub after_claim :
    (Json → String)
    → Settings
    → ℕ
    → ℕ
    → List Call
    → Remote
    → Result Claim × Execution
    → Result Fields × Execution
unfolding complete mark_unknown count_hit
after_claim print c now later between remote (err x, e) = (err x, e)
after_claim print c now later between remote (ok cached, e) =
    (ok (deduplicated (count_hit now e)), count_hit now e)
after_claim print c now later between remote (ok (leased token), e) =
    record_outcome print later token e remote (run print c between e)

unfoldable pub execute_once :
    (Json → String)
    → Settings
    → ℕ
    → String
    → String
    → ℕ
    → List Call
    → Remote
    → Execution
    → Result Fields × Execution
unfolding claim complete mark_unknown count_hit
execute_once print c now token owner later between remote e =
    after_claim print c now later between remote (claim c now token owner e)

-- ===== src/Mcp/Execution/Outcomes.antt =====
-- What `execute_once` leaves behind, on every way that the remote call can end.
use text.Mathlib.TextPositions.{eq_refl}
use code_mate.Prelude.{ℕ, ◌+◌, ◌≡◌, String, true, none, some, List, ◌∙◌, ap, arith, if◌then◌else◌}
use code_mate.Json.{Json, Fields, get, truthy, or_empty}
use code_mate.Mcp.Execution.Row.{
  Execution, Settings, Status, succeeded, failed, unknown, is_terminal, is_executing,
  effective_execution_lease_seconds, Result, ok, err, reconciliation_required,
}
use code_mate.Mcp.Execution.Methods.{leased, claim, complete, mark_unknown}
use code_mate.Mcp.Execution.Steps.{Call, run}
use code_mate.Mcp.Execution.Lease.{AllOther, claim-leased, run-other, outcome}
use code_mate.Mcp.Execution.ExecuteOnce.{
  Remote, circuit_open, returned, quota_exceeded, quota_unavailable, raised, identify_call,
  deduplicated, record_outcome, after_claim, execute_once,
}

-- The status that each end of a remote call leads to: an unknown outcome only where the call
-- raised, and a success only where the tool said so.
abbrev pub expected_status : Execution → Remote → Status
expected_status e (circuit_open retry_after) = failed
expected_status e (returned raw) =
    if truthy (get "ok" (identify_call e raw)) then succeeded else failed
expected_status e (quota_exceeded reason policy_id retry_after) = failed
expected_status e quota_unavailable = failed
expected_status e (raised message) = unknown

-- The reply that goes with a row: its result, or the exception that asks for reconciliation.
abbrev pub expected_reply : Remote → Execution → Result Fields
expected_reply (raised message) e = err reconciliation_required
expected_reply remote e = ok (or_empty e.result_json)

module _ (print : Json → String) where
  record_outcome-holder :
      (later : ℕ) (token : String) (mine : Execution) (remote : Remote) (e : Execution)
      → is_executing e.status ≡ true
      → e.lease_token ≡ some token
      → ((record_outcome print later token mine remote e).1.status ≡ expected_status mine remote)
        × ((record_outcome print later token mine remote e).0
            ≡ expected_reply remote (record_outcome print later token mine remote e).1)
        × ((record_outcome print later token mine remote e).1.lease_token ≡ none)
  unfolding complete mark_unknown
  record_outcome-holder later token mine (circuit_open x) e live held =
      ground (arith, eq_refl token)
  record_outcome-holder later token mine (returned raw) e live held = ground (arith, eq_refl token)
  record_outcome-holder later token mine (quota_exceeded x y z) e live held =
      ground (arith, eq_refl token)
  record_outcome-holder later token mine quota_unavailable e live held =
      ground (arith, eq_refl token)
  record_outcome-holder later token mine (raised m) e live held = ground (arith, eq_refl token)

module _ (print : Json → String) (c : Settings) where
  execute_once-leased :
      (now : ℕ) (token owner : String) (later : ℕ) (between : List Call) (remote : Remote)
      (e : Execution)
      → (claim c now token owner e).0 ≡ ok (leased token)
      → run print c between (claim c now token owner e).1 ≡ (claim c now token owner e).1
      → execute_once print c now token owner later between remote e
        ≡ record_outcome print later token
            (claim c now token owner e).1
            remote
            (claim c now token owner e).1
  unfolding execute_once
  execute_once-leased now token owner later between remote e got same =
      ap (after_claim print c now later between remote)
        (λ i. (got i, (claim c now token owner e).1))
      ∙ ap (record_outcome print later token (claim c now token owner e).1 remote) same

  -- A worker that is given the lease settles the execution, whatever others call while its lease
  -- lasts: the row ends succeeded or failed, as the tool, the circuit breaker or the quota decided,
  -- and the caller gets the recorded result; or, where the remote call raised, it ends unknown, and
  -- the caller is told to reconcile. The lease is given back.
  pub execute_once_settles :
      (now : ℕ) (token owner : String) (later : ℕ) (between : List Call) (remote : Remote)
      (e : Execution)
      → (claim c now token owner e).0 ≡ ok (leased token)
      → AllOther token (now + effective_execution_lease_seconds c) between
      → ((execute_once print c now token owner later between remote e).1.status
          ≡ expected_status (claim c now token owner e).1 remote)
        × ((execute_once print c now token owner later between remote e).0
            ≡ expected_reply remote (execute_once print c now token owner later between remote e).1)
        × ((execute_once print c now token owner later between remote e).1.lease_token ≡ none)
  execute_once_settles now token owner later between remote e got others =
      let (live, held, until) = claim-leased print c now token owner e got in
      let recorded : execute_once print c now token owner later between remote e
          ≡ record_outcome print later token (claim c now token owner e).1 remote
              (claim c now token owner e).1 =
        execute_once-leased now token owner later between remote e got (
          run-other print c token (now + effective_execution_lease_seconds c) between
            (claim c now token owner e).1 live held until others) in
      rw recorded (
        record_outcome-holder print later token (claim c now token owner e).1 remote
          (claim c now token owner e).1 live held)

  -- A worker that comes after the execution is over does not call the tool again: whatever the
  -- remote call would have brought, it gets the recorded result, marked as deduplicated, the
  -- outcome stays, and the hit is counted.
  execute_once_deduplicates :
      (now : ℕ) (token owner : String) (later : ℕ) (between : List Call) (remote : Remote)
      (e : Execution)
      → is_terminal e.status ≡ true
      → ((execute_once print c now token owner later between remote e).0 ≡ ok (deduplicated e))
        × (outcome (execute_once print c now token owner later between remote e).1 ≡ outcome e)
        × ((execute_once print c now token owner later between remote e).1.deduplication_hits
            ≡ e.deduplication_hits + 1)
  unfolding execute_once
  execute_once_deduplicates now token owner later between remote e over = ground arith

-- ===== src/Mcp/Execution/Methods.antt =====
-- The methods of `MCPExecutionService` on the row that they have locked. A method returns its
-- result or its exception, and the row as it has been committed.
use text.Mathlib.Text.{◌==◌ as str_eq}
use code_mate.Prelude.{
  ℕ, ◌+◌, String, Bool, true, false, not, ◌&&◌, ◌||◌, Option, none, some, ltb, if◌then◌else◌,
}
use code_mate.Text.{take}
use code_mate.Json.{Json, Fields, get, truthy}
use code_mate.Mcp.Execution.Row.{
  Status, prepared, executing, succeeded, failed, unknown, reconciling, is_terminal, is_executing,
  is_prepared, Execution, Settings, effective_execution_lease_seconds, in_progress,
  reconciliation_required, lease_lost, Result, ok, err, is_leased, or_time,
}

-- `MCPExecutionClaim`: the lease token, unless the execution was over already.
pub data Claim : Type 0 where
  leased : String → Claim
  cached : Claim

-- `_set_unknown`
unfoldable pub set_unknown : ℕ → String → Bool → Execution → Execution
set_unknown now reason increment_version e = record e {
  status = unknown;
  error_message = some (take 4000 reason);
  lease_token = none;
  lease_owner = none;
  lease_expires_at = none;
  finished_at = none;
  version = if increment_version then e.version + 1 else e.version;
  updated_at = now;
}

-- `_recover_expired_locked`
unfoldable pub recover_expired : Settings → ℕ → Execution → Execution
unfolding set_unknown
recover_expired c now e =
    let freed = record e {
      recovery_count = e.recovery_count + 1;
      lease_token = none;
      lease_owner = none;
      lease_expires_at = none;
      version = e.version + 1;
      updated_at = now;
    } in
    if e.retry_safe && ltb e.attempt_count c.execution_max_attempts
    then record freed {
      status = prepared;
      error_message = some "Previous worker lease expired; retry scheduled with same key";
    }
    else set_unknown now
        "Worker lease expired after remote call may have started; reconciliation required" false
        freed

-- The end of `claim`: the lease is taken.
unfoldable pub acquire : Settings → ℕ → String → String → Execution → Execution
unfolding effective_execution_lease_seconds
acquire c now token owner e = record e {
  status = executing;
  lease_token = some token;
  lease_owner = some owner;
  lease_expires_at = some (now + effective_execution_lease_seconds c);
  attempt_count = e.attempt_count + 1;
  started_at = or_time e.started_at now;
  version = e.version + 1;
  updated_at = now;
}

-- `claim`, where the row is executing.
abbrev pub claim_executing : Settings → ℕ → String → String → Execution → Result Claim × Execution
unfolding recover_expired acquire
claim_executing c now token owner e =
    if is_leased now e.lease_expires_at
    then (err in_progress, e)
    else let freed = recover_expired c now e in
      if is_prepared freed.status
      then (ok (leased token), acquire c now token owner freed)
      else (err reconciliation_required, freed)

abbrev pub claim_at : Status → Settings → ℕ → String → String → Execution → Result Claim × Execution
unfolding recover_expired acquire
claim_at succeeded c now token owner e = (ok cached, e)
claim_at failed c now token owner e = (ok cached, e)
claim_at unknown c now token owner e = (err reconciliation_required, e)
claim_at reconciling c now token owner e = (err reconciliation_required, e)
claim_at executing c now token owner e = claim_executing c now token owner e
claim_at prepared c now token owner e = (ok (leased token), acquire c now token owner e)

unfoldable pub claim : Settings → ℕ → String → String → Execution → Result Claim × Execution
unfolding recover_expired acquire
claim c now token owner e = claim_at e.status c now token owner e

-- `execution.lease_token != lease_token`, negated
abbrev pub holds : Option String → String → Bool
holds none token = false
holds (some t) token = str_eq t token

-- `str(result.get("error") or "MCP tool returned an error")`; an error that is no text is printed
-- by `str`, which is a parameter.
abbrev pub error_text : (Json → String) → Fields → String
error_text print result =
    if truthy (get "error" result) then print (get "error" result) else "MCP tool returned an error"

unfoldable pub complete :
    (Json → String) → ℕ → String → Fields → Bool → Execution → Result (Unit {0}) × Execution
complete print now token result did_fail e =
    if is_terminal e.status
    then (ok tt, e)
    else if not (is_executing e.status) || not (holds e.lease_token token)
    then (err lease_lost, e)
    else (
      ok tt,
      record e {
        status = if did_fail then failed else succeeded;
        result_json = some result;
        error_message = if did_fail then some (take 4000 (error_text print result)) else none;
        lease_token = none;
        lease_owner = none;
        lease_expires_at = none;
        finished_at = some now;
        version = e.version + 1;
        updated_at = now;
      },
    )

unfoldable pub mark_unknown : ℕ → String → String → Execution → Result (Unit {0}) × Execution
unfolding set_unknown
mark_unknown now token reason e =
    if is_terminal e.status
    then (ok tt, e)
    else if not (is_executing e.status) || not (holds e.lease_token token)
    then (err lease_lost, e)
    else (ok tt, set_unknown now reason true e)

-- `recover_stale`; whether a row is returned is whether it changed.
unfoldable pub recover_stale : Settings → ℕ → Execution → Bool × Execution
unfolding recover_expired
recover_stale c now e =
    if not (is_executing e.status) || is_leased now e.lease_expires_at
    then (false, e)
    else (true, recover_expired c now e)

-- The cached branch of `execute_once`: the hit is counted.
unfoldable pub count_hit : ℕ → Execution → Execution
count_hit now e = record e {
  deduplication_hits = e.deduplication_hits + 1;
  version = e.version + 1;
  updated_at = now;
}

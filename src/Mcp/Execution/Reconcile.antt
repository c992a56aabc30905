-- ===== src/Mcp/Execution/Reconcile.antt =====
-- `MCPExecutionService.reconcile`: an operator settles an execution whose outcome is unknown.
use text.Mathlib.Text.{◌==◌ as str_eq}
use code_mate.Prelude.{
  ℕ, ◌+◌, String, true, false, not, Option, none, some, leb, ◌==◌, if◌then◌else◌,
}
use code_mate.Text.{take}
use code_mate.Json.{Json, bool, str, Fields, get, put, truthy, or_empty}
use code_mate.Mcp.Execution.Row.{
  prepared, succeeded, failed, is_unknown, Execution, Settings, version_conflict, wrong_status,
  retry_unsafe, attempts_exhausted, unsupported_action, Result, ok, err,
}

pub data Action : Type 0 where
  confirm_succeeded confirm_failed retry : Action

-- `action not in {...}`: the names of the actions, as the request has them.
unfoldable pub parse_action : String → Option Action
parse_action a =
    if str_eq a "confirm_succeeded"
    then some confirm_succeeded
    else if str_eq a "confirm_failed"
    then some confirm_failed
    else if str_eq a "retry"
    then some retry
    else none

-- Who settles it, and with what.
pub record Decision : Type 0 where
  pub actor : String
  pub provider : String
  pub note : Option String
  pub result : Option Fields

-- The items that both confirmations add behind `ok`.
abbrev pub identify : Execution → Fields → Fields
identify e d =
    put "idempotency_key" (str e.idempotency_key)
      (put "execution_id" (str e.id) (put "qualified_name" (str e.qualified_name) d))

-- `note or default`
abbrev pub note_or : Option String → String → String
note_or none d = d
note_or (some s) d = if str_eq s "" then d else s

-- `(result or {}).get("error") or note or ...`
abbrev pub failure_error : Decision → Json
failure_error d =
    if truthy (get "error" (or_empty d.result))
    then get "error" (or_empty d.result)
    else str (note_or d.note "Execution manually confirmed as failed")

abbrev pub succeeded_result : Decision → Execution → Fields
succeeded_result d e =
    put "reconciled" (bool true) (identify e (put "ok" (bool true) (or_empty d.result)))

abbrev pub failed_result : Decision → Execution → Fields
failed_result d e =
    put "reconciled" (bool true)
      (put "error" (failure_error d) (identify e (put "ok" (bool false) (or_empty d.result))))

-- `str((execution.result_json or {}).get("error") or "Execution failed")[:4000]`
abbrev pub failed_message : (Json → String) → Fields → String
failed_message print r =
    take 4000 (if truthy (get "error" r) then print (get "error" r) else "Execution failed")

-- What every accepted decision writes.
abbrev pub settle : ℕ → Decision → Execution → Execution
settle now d e = record e {
  reconciliation_note = d.note;
  reconciled_by = some d.actor;
  reconciled_provider = some d.provider;
  reconciled_at = some now;
  version = e.version + 1;
  updated_at = now;
}

abbrev pub apply_action :
    (Json → String) → Settings → ℕ → Action → Decision → Execution → Result (Unit {0}) × Execution
apply_action print c now retry d e =
    if not e.retry_safe
    then (err retry_unsafe, e)
    else if leb c.execution_max_attempts e.attempt_count
    then (err attempts_exhausted, e)
    else (
      ok tt,
      settle now d (record e {
        status = prepared;
        result_json = none;
        error_message = none;
        finished_at = none;
      }),
    )
apply_action print c now confirm_succeeded d e = (
  ok tt,
  settle now d (record e {
    status = succeeded;
    result_json = some (succeeded_result d e);
    error_message = none;
    finished_at = some now;
  }),
)
apply_action print c now confirm_failed d e = (
  ok tt,
  settle now d (record e {
    status = failed;
    result_json = some (failed_result d e);
    error_message = some (failed_message print (failed_result d e));
    finished_at = some now;
  }),
)

unfoldable pub reconcile :
    (Json → String)
    → Settings
    → ℕ
    → String
    → ℕ
    → Decision
    → Execution
    → Result (Unit {0}) × Execution
unfolding parse_action
reconcile print c now action expected_version d e = elim (parse_action action) [
  | none ↦ (err unsupported_action, e)
  | some a ↦
      if not (e.version == expected_version)
      then (err version_conflict, e)
      else if not (is_unknown e.status)
      then (err wrong_status, e)
      else apply_action print c now a d e
]

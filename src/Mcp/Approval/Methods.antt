-- ===== src/Mcp/Approval/Methods.antt =====
-- The methods of `MCPApprovalService` on the row that they have locked: what they return or raise,
-- and the row as it has been committed.
use code_mate.Prelude.{
  ℕ, ◌+◌, String, Bool, false, not, ◌==◌, Option, none, some, max, ltb, leb, if◌then◌else◌,
}
use code_mate.Text.{take}
use code_mate.Json.{Json, Fields, get, obj}
use code_mate.Mcp.Approval.Row.{
  Status, queued, resuming, reconciliation_required, completed, failed, is_pending, Decision,
  rejected, normalized_decision, is_decision, Approval, Settings, Reply, returned, nothing,
  not_found, version_conflict, already_decided,
}

-- A method that raises where the row is missing.
abbrev pub with_row : (Approval → Reply × Approval) → Option Approval → Reply × Option Approval
with_row f none = (not_found, none)
with_row f (some a) = ((f a).0, some (f a).1)

-- The end of `decide` and `expire`: a decision is written.
unfoldable pub write_decision : ℕ → Decision → Option String → String → String → Approval → Approval
write_decision now d note actor provider a = record a {
  decision = some d;
  decision_note = note;
  decided_by = some actor;
  decided_provider = some provider;
  decided_at = some now;
  status = queued;
  version = a.version + 1;
  updated_at = now;
}

unfoldable pub decide :
    ℕ → String → Option String → String → String → ℕ → Approval → Reply × Approval
unfolding write_decision
decide now decision note actor provider expected_version a =
    let d = normalized_decision decision in
    if not (a.version == expected_version)
    then (if is_decision a.decision d then (returned, a) else (version_conflict, a))
    else if not (is_pending a.status)
    then (if is_decision a.decision d then (returned, a) else (already_decided, a))
    else if leb a.expires_at now
    then (
      returned,
      write_decision now rejected (some "Approval expired before decision") actor provider a,
    )
    else (returned, write_decision now d note actor provider a)

unfoldable pub expire : ℕ → Approval → Reply × Approval
unfolding write_decision
expire now a =
    if not (is_pending a.status)
    then (nothing, a)
    else if ltb now a.expires_at
    then (nothing, a)
    else (
      returned,
      write_decision now rejected (some "Approval expired") "system-expiry" "system" a,
    )

-- `execution_started_at and now - execution_started_at < stale_after`
abbrev pub is_recent : Settings → ℕ → Option ℕ → Bool
is_recent c now none = false
is_recent c now (some t) = ltb now (t + max 1 c.approval_resume_stale_seconds)

-- The end of `claim_for_resume`.
unfoldable pub start_resume : ℕ → Approval → Approval
start_resume now a = record a {
  status = resuming;
  execution_started_at = some now;
  version = a.version + 1;
  updated_at = now;
}

unfoldable pub claim_at : Status → Settings → ℕ → Approval → Reply × Approval
unfolding start_resume
claim_at resuming c now a =
    if is_recent c now a.execution_started_at then (nothing, a) else (returned, start_resume now a)
claim_at queued c now a = (returned, start_resume now a)
claim_at s c now a = (nothing, a)

unfoldable pub claim_for_resume : Settings → ℕ → Approval → Reply × Approval
unfolding start_resume
claim_for_resume c now a = claim_at a.status c now a

-- `finish`; `jsonable` is the round trip through Python's json, `print` is `str`.
unfoldable pub finish : (Json → Json) → (Json → String) → ℕ → Fields → Bool → Approval → Approval
finish jsonable print now result did_fail a = record a {
  status = if did_fail then failed else completed;
  result_json = some (jsonable (obj result));
  error_message = if did_fail then some (take 4000 (print (get "error" result))) else none;
  execution_finished_at = some now;
  version = a.version + 1;
  updated_at = now;
}

-- `mark_run_waiting_reconciliation`: what it does to the approval of the execution.
abbrev pub wait_at : Status → ℕ → Option String → Approval → Approval
wait_at completed now error a = a
wait_at failed now error a = a
wait_at s now error a = record a {
  status = reconciliation_required;
  error_message = error;
  version = a.version + 1;
  updated_at = now;
}

unfoldable pub mark_waiting_reconciliation : ℕ → Option String → Approval → Approval
mark_waiting_reconciliation now error a = wait_at a.status now error a

-- `prepare_resume_target`
unfoldable pub requeue : ℕ → Approval → Approval
requeue now a = record a {
  status = queued;
  error_message = none;
  execution_started_at = none;
  execution_finished_at = none;
  version = a.version + 1;
  updated_at = now;
}

unfoldable pub resume_at : Status → ℕ → Approval → Approval
unfolding requeue
resume_at reconciliation_required now a = requeue now a
resume_at resuming now a = requeue now a
resume_at failed now a = requeue now a
resume_at s now a = a

unfoldable pub prepare_resume_target : ℕ → Approval → Approval
unfolding requeue
prepare_resume_target now a = resume_at a.status now a

-- ===== src/Mcp/Execution/Once.antt =====
-- How often an execution can call its remote tool.
use code_mate.Prelude.{
  ◌+◌, ◌≤◌, ◌<◌, ◌≡◌, refl, String, true, false, is_some, List, [], ◌∷◌, ◌∙◌, max, arith,
}
use code_mate.Json.{Json}
use code_mate.Mcp.Execution.Row.{
  Execution, Settings, is_executing, is_prepared, is_terminal, reconciling,
}
use code_mate.Mcp.Execution.Steps.{
  Call, claims, completes, loses, recovers, reconciles, step, run, starts, remote_calls,
}

-- What holds of a row between two calls.
pub record IsValid (c : Settings) (e : Execution) : Type 0 where
  pub token_iff : is_some e.lease_token ≡ is_executing e.status
  pub expiry_iff : is_some e.lease_expires_at ≡ is_executing e.status
  pub not_reconciling : e.status ≡ reconciling → ⊥
  pub attempts : e.attempt_count ≤ max 1 c.execution_max_attempts
  pub attempt_left : is_prepared e.status ≡ true → e.attempt_count < max 1 c.execution_max_attempts
  pub unsafe_once : e.retry_safe ≡ false → e.attempt_count ≤ 1
  pub unsafe_left : e.retry_safe ≡ false → is_prepared e.status ≡ true → e.attempt_count ≡ 0
  pub terminal_result : is_terminal e.status ≡ true → is_some e.result_json ≡ true
  pub terminal_finished : is_terminal e.status ≡ true → is_some e.finished_at ≡ true

module _ (print : Json → String) (c : Settings) where
  -- Every method, on every branch, keeps the invariant of the row: a lease stands exactly while the
  -- row is executing, the attempts stay within the limit, a prepared row has an attempt left, a tool
  -- that is not safe to retry is prepared only before its first attempt, and a row that is over has a
  -- result and a finishing time.
  pub step-IsValid : (k : Call) (e : Execution) → IsValid c e → IsValid c (step print c k e)
  unfolding step
  step-IsValid (claims now token owner) e v = ground arith
  step-IsValid (completes now token result did_fail) e v = ground arith
  step-IsValid (loses now token reason) e v = ground arith
  step-IsValid (recovers now) e v = ground arith
  step-IsValid (reconciles now action expected d) e v = ground arith

  pub run-IsValid : (ks : List Call) (e : Execution) → IsValid c e → IsValid c (run print c ks e)
  run-IsValid [] e v = v
  run-IsValid (k ∷ ks) e v = run-IsValid ks (step print c k e) (step-IsValid k e v)

  -- Only a claim that is given a lease counts an attempt.
  starts-step :
      (k : Call) (e : Execution)
      → starts print c k e + e.attempt_count ≡ (step print c k e).attempt_count
  unfolding step starts
  starts-step (claims now token owner) e = ground arith
  starts-step (completes now token result did_fail) e = ground arith
  starts-step (loses now token reason) e = ground arith
  starts-step (recovers now) e = ground arith
  starts-step (reconciles now action expected d) e = ground arith

  step-retry_safe : (k : Call) (e : Execution) → (step print c k e).retry_safe ≡ e.retry_safe
  unfolding step
  step-retry_safe (claims now token owner) e = ground arith
  step-retry_safe (completes now token result did_fail) e = ground arith
  step-retry_safe (loses now token reason) e = ground arith
  step-retry_safe (recovers now) e = ground arith
  step-retry_safe (reconciles now action expected d) e = ground arith

  run-retry_safe : (ks : List Call) (e : Execution) → (run print c ks e).retry_safe ≡ e.retry_safe
  run-retry_safe [] e = refl
  run-retry_safe (k ∷ ks) e = run-retry_safe ks (step print c k e) ∙ step-retry_safe k e

  pub remote_calls-run :
      (ks : List Call) (e : Execution)
      → remote_calls print c ks e + e.attempt_count ≡ (run print c ks e).attempt_count
  remote_calls-run [] e = omega arith
  remote_calls-run (k ∷ ks) e =
      omega (arith, starts-step k e, remote_calls-run ks (step print c k e))

  -- A tool that does not declare idempotent retries is called at most once for an execution:
  -- whatever workers claim it, however they crash, time out or race, and whatever operators decide.
  -- The row satisfies the invariant at the start, and its earlier attempts count too.
  pub unsafe_called_once :
      (ks : List Call) (e : Execution)
      → IsValid c e
      → e.retry_safe ≡ false
      → remote_calls print c ks e + e.attempt_count ≤ 1
  unsafe_called_once ks e v unsafe = ground (
    arith,
    remote_calls-run ks e,
    (run-IsValid ks e v).unsafe_once (run-retry_safe ks e ∙ unsafe),
  )

  -- Any execution calls its tool at most as often as the settings allow attempts, and at most once
  -- where they allow none, its earlier attempts included. The row satisfies the invariant at the
  -- start.
  calls_bounded :
      (ks : List Call) (e : Execution)
      → IsValid c e
      → remote_calls print c ks e + e.attempt_count ≤ max 1 c.execution_max_attempts
  calls_bounded ks e v = ground (arith, remote_calls-run ks e, run-IsValid ks e v)

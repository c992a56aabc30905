-- ===== src/Mcp/Execution/Steps.antt =====
-- The life of one execution: any interleaving of the service's methods, called by any workers and
-- operators at any times.
use code_mate.Prelude.{ℕ, ◌+◌, String, Bool, List, [], ◌∷◌}
use code_mate.Json.{Json, Fields}
use code_mate.Mcp.Execution.Row.{Execution, Settings, Result, ok, err}
use code_mate.Mcp.Execution.Methods.{
  Claim, leased, cached, claim, complete, mark_unknown, recover_stale, count_hit,
}
use code_mate.Mcp.Execution.Reconcile.{Decision, reconcile}

pub data Call : Type 0 where
  claims : ℕ → String → String → Call
  completes : ℕ → String → Fields → Bool → Call
  loses : ℕ → String → String → Call
  recovers : ℕ → Call
  reconciles : ℕ → String → ℕ → Decision → Call

-- The cached branch of `execute_once` follows a claim that found the execution over.
abbrev pub after_claim : ℕ → Result Claim × Execution → Execution
after_claim now (ok cached, e) = count_hit now e
after_claim now (ok (leased token), e) = e
after_claim now (err x, e) = e

module _ (print : Json → String) (c : Settings) where
  unfoldable pub step : Call → Execution → Execution
  unfolding claim complete mark_unknown recover_stale count_hit reconcile
  step (claims now token owner) e = after_claim now (claim c now token owner e)
  step (completes now token result did_fail) e = (complete print now token result did_fail e).1
  step (loses now token reason) e = (mark_unknown now token reason e).1
  step (recovers now) e = (recover_stale c now e).1
  step (reconciles now action expected d) e = (reconcile print c now action expected d e).1

  abbrev pub run : List Call → Execution → Execution
  run [] e = e
  run (k ∷ ks) e = run ks (step k e)

-- Whether a call starts a remote call of the tool: a claim that is given a lease.
abbrev pub is_lease : Result Claim → ℕ
is_lease (ok (leased token)) = 1
is_lease (ok cached) = 0
is_lease (err x) = 0

module _ (print : Json → String) (c : Settings) where
  unfoldable pub starts : Call → Execution → ℕ
  unfolding claim
  starts (claims now token owner) e = is_lease (claim c now token owner e).0
  starts k e = 0

  -- The remote calls that a list of calls starts.
  abbrev pub remote_calls : List Call → Execution → ℕ
  remote_calls [] e = 0
  remote_calls (k ∷ ks) e = starts k e + remote_calls ks (step print c k e)

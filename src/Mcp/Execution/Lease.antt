-- ===== src/Mcp/Execution/Lease.antt =====
-- Leases, versions and results over every interleaving of the service's methods.
use text.Mathlib.Text.{◌==◌ as str_eq}
use text.Mathlib.TextPositions.{eq_refl}
use code_mate.Prelude.{
  ℕ, ◌+◌, ◌<◌, ◌≡◌, refl, String, Bool, true, false, Option, some, List, [], ◌∷◌, ap, ◌∙◌, arith,
  if◌then◌else◌,
}
use code_mate.Json.{Json, Fields}
use code_mate.Mcp.Execution.Row.{
  Execution, Settings, Status, is_executing, is_terminal, failed, succeeded,
  effective_execution_lease_seconds, ok,
}
use code_mate.Mcp.Execution.Methods.{claim, complete, leased}
use code_mate.Mcp.Execution.Steps.{
  Call, claims, completes, loses, recovers, reconciles, step, run, starts, remote_calls,
}

-- The parts of a row that a caller reads as the outcome of the execution.
abbrev pub outcome : Execution → Status × Option Fields × Option String × Option ℕ
outcome e = (e.status, e.result_json, e.error_message, e.finished_at)

module _ (print : Json → String) (c : Settings) where
  step-outcome :
      (k : Call) (e : Execution)
      → is_terminal e.status ≡ true
      → outcome (step print c k e) ≡ outcome e
  unfolding step
  step-outcome (claims now token owner) e h = ground arith
  step-outcome (completes now token result did_fail) e h = ground arith
  step-outcome (loses now token reason) e h = ground arith
  step-outcome (recovers now) e h = ground arith
  step-outcome (reconciles now action expected d) e h = ground arith

  starts-terminal :
      (k : Call) (e : Execution) → is_terminal e.status ≡ true → starts print c k e ≡ 0
  unfolding starts
  starts-terminal (claims now token owner) e h = ground arith
  starts-terminal (completes now token result did_fail) e h = refl
  starts-terminal _ e h = refl

  outcome-is_terminal :
      (e f : Execution)
      → outcome f ≡ outcome e
      → is_terminal e.status ≡ true
      → is_terminal f.status ≡ true
  outcome-is_terminal e f p h = ground arith

  -- The outcome of an execution is final: once it has succeeded or failed, its status, result, error
  -- and finishing time stay the same whatever is called, late completions and reconciliations
  -- included, and no call starts the remote tool again.
  pub outcome_final :
      (ks : List Call) (e : Execution)
      → is_terminal e.status ≡ true
      → (outcome (run print c ks e) ≡ outcome e) × (remote_calls print c ks e ≡ 0)
  outcome_final [] e h = (refl, refl)
  outcome_final (k ∷ ks) e h =
      let same = step-outcome k e h in
      let (later, none_started) =
        outcome_final ks (step print c k e) (outcome-is_terminal e (step print c k e) same h) in
      (later ∙ same, omega (arith, starts-terminal k e h, none_started))

-- A call of somebody else than the holder of a token, made before a time.
abbrev pub IsOther : String → ℕ → Call → Type 0
IsOther token end (claims now t owner) = now < end
IsOther token end (completes now t result did_fail) = str_eq token t ≡ false
IsOther token end (loses now t reason) = str_eq token t ≡ false
IsOther token end (recovers now) = now < end
IsOther token end (reconciles now action expected d) = Unit

abbrev pub AllOther : String → ℕ → List Call → Type 0
AllOther token end [] = Unit
AllOther token end (k ∷ ks) = IsOther token end k × AllOther token end ks

module _ (print : Json → String) (c : Settings) where
  step-other :
      (token : String) (end : ℕ) (k : Call) (e : Execution)
      → is_executing e.status ≡ true
      → e.lease_token ≡ some token
      → e.lease_expires_at ≡ some end
      → IsOther token end k
      → step print c k e ≡ e
  unfolding step
  step-other token end (claims now t owner) e x y z o = ground arith
  step-other token end (completes now t result did_fail) e x y z o = ground arith
  step-other token end (loses now t reason) e x y z o = ground arith
  step-other token end (recovers now) e x y z o = ground arith
  step-other token end (reconciles now action expected d) e x y z o = ground arith

  pub run-other :
      (token : String) (end : ℕ) (ks : List Call) (e : Execution)
      → is_executing e.status ≡ true
      → e.lease_token ≡ some token
      → e.lease_expires_at ≡ some end
      → AllOther token end ks
      → run print c ks e ≡ e
  run-other token end [] e x y z o = refl
  run-other token end (k ∷ ks) e x y z o =
      ap (run print c ks) (step-other token end k e x y z o.0) ∙ run-other token end ks e x y z o.1

  pub claim-leased :
      (now : ℕ) (token owner : String) (e : Execution)
      → (claim c now token owner e).0 ≡ ok (leased token)
      → (is_executing (claim c now token owner e).1.status ≡ true)
        × ((claim c now token owner e).1.lease_token ≡ some token)
        × ((claim c now token owner e).1.lease_expires_at
            ≡ some (now + effective_execution_lease_seconds c))
  unfolding claim
  claim-leased now token owner e got = ground arith

  complete-holder :
      (later : ℕ) (token : String) (result : Fields) (did_fail : Bool) (e : Execution)
      → is_executing e.status ≡ true
      → e.lease_token ≡ some token
      → ((complete print later token result did_fail e).0 ≡ ok tt)
        × ((complete print later token result did_fail e).1.status
            ≡ (if did_fail then failed else succeeded))
        × ((complete print later token result did_fail e).1.result_json ≡ some result)
  unfolding complete
  complete-holder later token result did_fail e x y = ground (arith, eq_refl token)

  -- While a lease lasts, nobody but its holder changes the execution, whatever they call, and the
  -- holder's completion is then accepted and decides the outcome.
  pub lease_protects :
      (now : ℕ) (token owner : String) (e : Execution) (ks : List Call) (later : ℕ)
      (result : Fields) (did_fail : Bool)
      → (claim c now token owner e).0 ≡ ok (leased token)
      → AllOther token (now + effective_execution_lease_seconds c) ks
      → (run print c ks (claim c now token owner e).1 ≡ (claim c now token owner e).1)
        × ((complete print later token result did_fail
              (run print c ks (claim c now token owner e).1)).0
            ≡ ok tt)
        × ((complete print later token result did_fail
              (run print c ks (claim c now token owner e).1)).1.status
            ≡ (if did_fail then failed else succeeded))
        × ((complete print later token result did_fail
              (run print c ks (claim c now token owner e).1)).1.result_json
            ≡ some result)
  lease_protects now token owner e ks later result did_fail got others =
      let (live, held, until) = claim-leased now token owner e got in
      let same : run print c ks (claim c now token owner e).1 ≡ (claim c now token owner e).1 =
        run-other token (now + effective_execution_lease_seconds c) ks (claim c now token owner e).1
          live held until others in
      let (accepted, status, written) =
        complete-holder later token result did_fail (claim c now token owner e).1 live held in
      (same, rw same accepted, rw same status, rw same written)

-- ===== src/Mcp/Circuit/Recovery.antt =====
-- How the circuit opens and closes again, and who may control it.
use code_mate.Prelude.{
  ◌≢◌, ℕ, ◌+◌, ◌≤◌, ◌<◌, ◌-◌, ◌≡◌, String, true, false, some, List, [], ◌∷◌, max, arith,
}
use code_mate.Json.{Json}
use code_mate.Mcp.Circuit.Health.{Health, Settings, opened, closed}
use code_mate.Mcp.Circuit.Methods.{
  before_execution_at, admitted, rejected, before_execution, record_transport_success,
  record_transport_failure, close_circuit, reject, admit, start_trial,
}
use code_mate.Mcp.Circuit.Control.{control_circuit, changed}
use code_mate.Mcp.Circuit.Steps.{
  Call, executes, succeeds, fails, probes, controls, registers, step, run, row_or,
}

-- Requests that failed in transport, one after the other: their times, errors and latencies.
abbrev pub fail_all : Settings → List (ℕ × String × ℕ) → Health → Health
fail_all c [] h = h
fail_all c ((now, error, latency) ∷ fs) h =
    fail_all c fs (record_transport_failure c now h.server_name error latency (some h))

-- `len(failures)`
abbrev pub count : List (ℕ × String × ℕ) → ℕ
count [] = 0
count (f ∷ fs) = count fs + 1

module _ (c : Settings) where
  fail_all-counts :
      (fs : List (ℕ × String × ℕ)) (h : Health)
      → ((fail_all c fs h).consecutive_failures ≡ h.consecutive_failures + count fs)
        × (h.manual_open ≡ false → (fail_all c fs h).manual_open ≡ false)
  unfolding record_transport_failure
  fail_all-counts [] h = (omega arith, λ m. m)
  fail_all-counts ((now, error, latency) ∷ fs) h = ground (
    arith,
    fail_all-counts fs (record_transport_failure c now h.server_name error latency (some h)),
  )

  fails-opens :
      (now : ℕ) (error : String) (latency : ℕ) (h : Health)
      → c.circuit_breaker_enabled ≡ true
      → h.manual_open ≡ false
      → max 1 c.circuit_failure_threshold ≤ h.consecutive_failures + 1
      → ((record_transport_failure c now h.server_name error latency (some h)).circuit_state
          ≡ opened)
        × ((record_transport_failure c now h.server_name error latency (some h)).cooldown_until
            ≡ some (now + max 1 c.circuit_cooldown_seconds))
  unfolding record_transport_failure
  fails-opens now error latency h on m enough = ground arith

  cooling-rejects :
      (now until : ℕ) (name id : String) (h : Health)
      → c.circuit_breaker_enabled ≡ true
      → h.circuit_state ≡ opened
      → h.cooldown_until ≡ some until
      → now < until
      → (before_execution c now name id (some h)).0 ≡ rejected (some (until - now))
  unfolding before_execution before_execution_at reject admit start_trial
  cooling-rejects now until name id h on o cooling early = ground arith

  -- Failures in a row trip the circuit: once they are as many as the threshold, every request that
  -- comes within the cooldown after the last of them is rejected, and told how long to wait. The
  -- conditions are an enabled circuit breaker and a circuit that is not manually open.
  failures_reject :
      (fs : List (ℕ × String × ℕ)) (failed_at : ℕ) (error : String) (latency now : ℕ) (id : String)
      (h : Health)
      → c.circuit_breaker_enabled ≡ true
      → h.manual_open ≡ false
      → max 1 c.circuit_failure_threshold ≤ h.consecutive_failures + count fs + 1
      → now < failed_at + max 1 c.circuit_cooldown_seconds
      → (before_execution c now
          (fail_all c fs h).server_name
          id
          (some (fail_all c ((failed_at, error, latency) ∷ []) (fail_all c fs h)))).0
        ≡ rejected (some (failed_at + max 1 c.circuit_cooldown_seconds - now))
  failures_reject fs failed_at error latency now id h on m enough early =
      let (counted, automatic) = fail_all-counts fs h in
      let (is_open, cooling) =
        fails-opens failed_at error latency (fail_all c fs h) on (automatic m)
          (omega (arith, counted, enough)) in
      cooling-rejects now (failed_at + max 1 c.circuit_cooldown_seconds)
        (fail_all c fs h).server_name id
        (record_transport_failure c failed_at (fail_all c fs h).server_name error latency
          (some (fail_all c fs h)))
        on is_open cooling early

  -- An open circuit recovers: the first request after the cooldown is let through as the trial, and
  -- its success closes the circuit with no failures counted. The conditions are an enabled circuit
  -- breaker and a circuit that is not manually open.
  pub cooldown_recovers :
      (now until done latency : ℕ) (id : String) (h : Health)
      → c.circuit_breaker_enabled ≡ true
      → h.manual_open ≡ false
      → h.circuit_state ≡ opened
      → h.cooldown_until ≡ some until
      → until ≤ now
      → ((before_execution c now h.server_name id (some h)).0 ≡ admitted)
        × ((before_execution c now h.server_name id (some h)).1.half_open_trial_id ≡ some id)
        × ((record_transport_success done h.server_name latency
              (some (before_execution c now h.server_name id (some h)).1)).circuit_state
            ≡ closed)
        × ((record_transport_success done h.server_name latency
              (some (before_execution c now h.server_name id (some h)).1)).consecutive_failures
            ≡ 0)
  unfolding before_execution record_transport_success before_execution_at reject admit start_trial
      close_circuit
  cooldown_recovers now until done latency id h on m o cooling late = ground arith

module _ (print : Json → String) (c : Settings) where
  version-le-step : (k : Call) (h : Health) → h.version ≤ (step print c k h).version
  unfolding step before_execution_at reject admit start_trial
  version-le-step (executes now id) h = ground arith
  version-le-step (succeeds now latency) h = ground arith
  version-le-step (fails now error latency) h = ground arith
  version-le-step (probes now true latency result error) h = ground arith
  version-le-step (probes now false latency result error) h = ground arith
  version-le-step (controls now action expected) h = ground arith
  version-le-step (registers now url) h = ground arith

  version-le-run : (ks : List Call) (h : Health) → h.version ≤ (run print c ks h).version
  version-le-run [] h = omega arith
  version-le-run (k ∷ ks) h =
      omega (arith, version-le-step k h, version-le-run ks (step print c k h))

  control-version :
      (now : ℕ) (action : String) (expected : ℕ) (h : Health)
      → (control_circuit c now action expected (some h)).0 ≡ changed
      → (row_or h (control_circuit c now action expected (some h)).1).version ≡ expected + 1
  unfolding control_circuit
  control-version now action expected h got = ground arith

  stale :
      (later : ℕ) (again : String) (expected : ℕ) (h : Health)
      → expected < h.version
      → ((control_circuit c later again expected (some h)).1 ≡ some h)
        × ((control_circuit c later again expected (some h)).0 ≢ changed)
  unfolding control_circuit
  stale later again expected h old = ground arith

  -- Two operators who decided on the same version of a row do not overwrite each other: once the
  -- first control is accepted, a later one that expects the same version changes nothing and is not
  -- accepted, whatever happened in between.
  control_once :
      (now later : ℕ) (action again : String) (expected : ℕ) (h : Health) (ks : List Call)
      → (control_circuit c now action expected (some h)).0 ≡ changed
      → ((control_circuit c later again expected
            (some (run print c ks (row_or h (control_circuit c now action expected (some h)).1)))).1
          ≡ some (run print c ks (row_or h (control_circuit c now action expected (some h)).1)))
        × ((control_circuit c later again expected (
              some
                (run print c ks (row_or h (control_circuit c now action expected (some h)).1)))).0
            ≢ changed)
  control_once now later action again expected h ks got =
      stale later again expected
        (run print c ks (row_or h (control_circuit c now action expected (some h)).1))
        (omega (
          arith,
          control-version now action expected h got,
          version-le-run ks (row_or h (control_circuit c now action expected (some h)).1),
        ))

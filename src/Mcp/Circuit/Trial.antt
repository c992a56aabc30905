-- ===== src/Mcp/Circuit/Trial.antt =====
-- The half-open circuit: one trial at a time.
use text.Mathlib.Text.{◌==◌ as str_eq}
use code_mate.Prelude.{
  ℕ, ◌+◌, ◌<◌, ◌≡◌, refl, String, true, false, Option, some, List, [], ◌∷◌, max, arith,
}
use code_mate.Json.{Json}
use code_mate.Mcp.Circuit.Health.{Health, Settings, half_open}
use code_mate.Mcp.Circuit.Methods.{
  before_execution_at, admitted, before_execution, reject, admit, start_trial,
}
use code_mate.Mcp.Circuit.Steps.{
  Call, executes, registers, succeeds, fails, probes, controls, step, admits, admissions,
}

-- The calls are requests of other executions before a time, and registrations.
abbrev pub AreRivals : String → ℕ → List Call → Type 0
AreRivals id end [] = Unit
AreRivals id end (executes now other ∷ ks) =
    (now < end) × (str_eq id other ≡ false) × AreRivals id end ks
AreRivals id end (registers now url ∷ ks) = AreRivals id end ks
AreRivals id end (k ∷ ks) = ⊥

-- The circuit waits for the trial of an execution until a time.
record IsTrying (id : String) (end : ℕ) (h : Health) : Type 0 where
  half : h.circuit_state ≡ half_open
  trial : h.half_open_trial_id ≡ some id
  lease : h.half_open_lease_expires_at ≡ some end

module _ (print : Json → String) (c : Settings) (on : c.circuit_breaker_enabled ≡ true) where
  step-IsTrying :
      (id : String) (end : ℕ) (k : Call) (ks : List Call) (h : Health)
      → str_eq id "" ≡ false
      → IsTrying id end h
      → AreRivals id end (k ∷ ks)
      → (admits print c k h ≡ 0) × IsTrying id end (step print c k h) × AreRivals id end ks
  unfolding step admits before_execution_at reject admit start_trial
  step-IsTrying id end (executes now other) ks h named t r = ground arith
  step-IsTrying id end (registers now url) ks h named t r = ground arith
  step-IsTrying id end (succeeds now latency) ks h named t r = elim r [ ]
  step-IsTrying id end (fails now error latency) ks h named t r = elim r [ ]
  step-IsTrying id end (probes now ok latency result error) ks h named t r = elim r [ ]
  step-IsTrying id end (controls now action expected) ks h named t r = elim r [ ]

  admissions-IsTrying :
      (id : String) (end : ℕ) (ks : List Call) (h : Health)
      → str_eq id "" ≡ false
      → IsTrying id end h
      → AreRivals id end ks
      → admissions print c ks h ≡ 0
  admissions-IsTrying id end [] h named t r = refl
  admissions-IsTrying id end (k ∷ ks) h named t r =
      let (none_now, trying, rest) = step-IsTrying id end k ks h named t r in
      omega (arith, none_now, admissions-IsTrying id end ks (step print c k h) named trying rest)

  before_execution-IsTrying :
      (now : ℕ) (name id : String) (row : Option Health)
      → (before_execution c now name id row).0 ≡ admitted
      → (before_execution c now name id row).1.circuit_state ≡ half_open
      → IsTrying id
          (now + max 1 c.circuit_half_open_lease_seconds)
          (before_execution c now name id row).1
  unfolding before_execution before_execution_at reject admit start_trial
  before_execution-IsTrying now name id row got half = ground arith

  -- A half-open circuit tries one execution at a time: once an execution is let through as the trial,
  -- the requests of all other executions before its lease ends are rejected, in whatever number and
  -- order they come, while nothing else is called on the row but registrations of the server: no
  -- outcome of any execution is recorded, no health probe, and no control of an operator. The
  -- conditions are an enabled circuit breaker and an execution id that is not empty.
  pub trial_excludes :
      (now : ℕ) (name id : String) (row : Option Health) (ks : List Call)
      → str_eq id "" ≡ false
      → (before_execution c now name id row).0 ≡ admitted
      → (before_execution c now name id row).1.circuit_state ≡ half_open
      → AreRivals id (now + max 1 c.circuit_half_open_lease_seconds) ks
      → admissions print c ks (before_execution c now name id row).1 ≡ 0
  trial_excludes now name id row ks named got half rivals =
      admissions-IsTrying id (now + max 1 c.circuit_half_open_lease_seconds) ks
        (before_execution c now name id row).1 named
        (before_execution-IsTrying now name id row got half) rivals

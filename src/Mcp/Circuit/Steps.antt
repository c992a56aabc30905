-- ===== src/Mcp/Circuit/Steps.antt =====
-- The life of one server's row: any interleaving of the service's methods, called by any workers
-- and operators at any times, under settings that stay the same.
use code_mate.Prelude.{ℕ, ◌+◌, String, Bool, Option, none, some, List, [], ◌∷◌}
use code_mate.Json.{Json, Fields}
use code_mate.Mcp.Circuit.Health.{Health, Settings}
use code_mate.Mcp.Circuit.Methods.{
  Admission, admitted, rejected, before_execution, record_transport_success,
  record_transport_failure, record_probe,
}
use code_mate.Mcp.Circuit.Control.{control_circuit, register_server}

pub data Call : Type 0 where
  executes : ℕ → String → Call
  succeeds : ℕ → ℕ → Call
  fails : ℕ → String → ℕ → Call
  probes : ℕ → Bool → ℕ → Option Fields → Option String → Call
  controls : ℕ → String → ℕ → Call
  registers : ℕ → Json → Call

-- The row after `control_circuit`, which never removes it.
abbrev pub row_or : Health → Option Health → Health
row_or h none = h
row_or h (some h') = h'

module _ (print : Json → String) (c : Settings) where
  unfoldable pub step : Call → Health → Health
  unfolding before_execution record_transport_success record_transport_failure record_probe
      control_circuit register_server
  step (executes now id) h = (before_execution c now h.server_name id (some h)).1
  step (succeeds now latency) h = record_transport_success now h.server_name latency (some h)
  step (fails now error latency) h =
      record_transport_failure c now h.server_name error latency (some h)
  step (probes now ok latency result error) h =
      record_probe print c now h.server_name ok latency result error (some h)
  step (controls now action expected) h =
      row_or h (control_circuit c now action expected (some h)).1
  step (registers now url) h = register_server now h.server_name url print (some h)

  abbrev pub run : List Call → Health → Health
  run [] h = h
  run (k ∷ ks) h = run ks (step k h)

abbrev pub is_admitted : Admission → ℕ
is_admitted admitted = 1
is_admitted (rejected t) = 0

module _ (print : Json → String) (c : Settings) where
  unfoldable pub admits : Call → Health → ℕ
  unfolding before_execution
  admits (executes now id) h = is_admitted (before_execution c now h.server_name id (some h)).0
  admits k h = 0

  -- The requests of a list of calls that reach the server.
  abbrev pub admissions : List Call → Health → ℕ
  admissions [] h = 0
  admissions (k ∷ ks) h = admits k h + admissions ks (step print c k h)

-- The requests of a list of calls.
abbrev pub requests : List Call → ℕ
requests [] = 0
requests (executes now id ∷ ks) = 1 + requests ks
requests (k ∷ ks) = requests ks

-- No call of `control_circuit` is among the calls.
abbrev pub IsUncontrolled : List Call → Type 0
IsUncontrolled [] = Unit
IsUncontrolled (controls now action expected ∷ ks) = ⊥
IsUncontrolled (k ∷ ks) = IsUncontrolled ks

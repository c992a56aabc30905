-- ===== src/Mcp/Circuit/Examples.antt =====
-- One server, its requests, probes and operators, and the theorems at their calls.
use code_mate.Prelude.{◌≡◌, refl, String, true, some, List, [], ◌∷◌, arith}
use code_mate.Json.{Json, str}
use code_mate.Mcp.Circuit.Health.{Health, Settings, new_health, opened}
use code_mate.Mcp.Circuit.Methods.{before_execution_at, before_execution, record_transport_failure}
use code_mate.Mcp.Circuit.Steps.{Call, executes, succeeds, controls, step, admissions}
use code_mate.Mcp.Circuit.Safety.{IsConsistent}
use code_mate.Mcp.Circuit.Trial.{trial_excludes}
use code_mate.Mcp.Circuit.Recovery.{fail_all}

-- A stand-in for Python's `str`.
abbrev print : Json → String
print (str s) = s
print v = "value"

abbrev settings : Settings
settings = record {
  circuit_breaker_enabled = true;
  circuit_failure_threshold = 2;
  circuit_cooldown_seconds = 30;
  circuit_half_open_lease_seconds = 45;
}

abbrev fresh : Health
unfolding new_health
fresh = new_health 0 "ci"

fresh-IsConsistent : IsConsistent settings fresh
unfolding new_health
fresh-IsConsistent = ground arith

-- Two failures in a row open the circuit until 51.
abbrev tripped : Health
unfolding new_health record_transport_failure
tripped = fail_all settings ((20, "timeout", 900) ∷ (21, "timeout", 900) ∷ []) fresh

-- An operator has opened the circuit.
abbrev manual : Health
unfolding new_health step
manual = step print settings (controls 5 "open" 1) fresh

tripped-opened : tripped.circuit_state ≡ opened
unfolding new_health record_transport_failure
tripped-opened = refl

abbrev later_calls : List Call
later_calls = executes 60 "x1" ∷ succeeds 61 12 ∷ executes 900 "x2" ∷ []

trial_excludes_example :
    admissions print settings
      (executes 61 "x2" ∷ executes 70 "x3" ∷ [])
      (before_execution settings 60 "ci" "x1" (some tripped)).1
    ≡ 0
unfolding new_health record_transport_failure before_execution before_execution_at
trial_excludes_example =
    trial_excludes print settings refl 60 "ci" "x1" (some tripped)
      (executes 61 "x2" ∷ executes 70 "x3" ∷ []) refl refl refl
      (omega arith, refl, (omega arith, refl, tt))

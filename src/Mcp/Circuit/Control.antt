-- ===== src/Mcp/Circuit/Control.antt =====
-- `control_circuit` and `register_servers` of `MCPOperationsService`: what an operator changes.
use text.Mathlib.Text.{◌==◌ as str_eq}
use code_mate.Prelude.{ℕ, String, true, false, ◌==◌, Option, none, some, if◌then◌else◌}
use code_mate.Json.{Json}
use code_mate.Mcp.Circuit.Health.{Health, Settings}
use code_mate.Mcp.Circuit.Methods.{
  locked_or_create, close_circuit, open_circuit, touch, text_or_none, text_or_empty,
}

-- `control_circuit`: the actions, and the ways that it raises.
pub data Action : Type 0 where
  opens closes resets : Action

abbrev pub parse_action : String → Option Action
parse_action a =
    if str_eq a "open"
    then some opens
    else if str_eq a "close"
    then some closes
    else if str_eq a "reset"
    then some resets
    else none

pub data Control : Type 0 where
  changed unsupported missing version_conflict : Control

abbrev pub apply_action : Action → Settings → ℕ → Health → Health
unfolding close_circuit open_circuit
apply_action opens c now h = open_circuit c now true h
apply_action closes c now h = close_circuit (record h { manual_open = false })
apply_action resets c now h = record (close_circuit (record h { manual_open = false })) {
  total_requests = 0;
  total_transport_successes = 0;
  total_transport_failures = 0;
  circuit_rejections = 0;
  circuit_open_count = 0;
  total_probes = 0;
  failed_probes = 0;
}

abbrev pub control_locked : Action → Settings → ℕ → ℕ → Health → Control × Option Health
unfolding touch close_circuit open_circuit
control_locked a c now expected h =
    if h.version == expected
    then (changed, some (touch now (apply_action a c now h)))
    else (version_conflict, some h)

unfoldable pub control_circuit : Settings → ℕ → String → ℕ → Option Health → Control × Option Health
unfolding touch close_circuit open_circuit
control_circuit c now action expected row = elim (parse_action action) [
  | none ↦ (unsupported, row)
  | some a ↦ elim row [ none ↦ (missing, none) | some h ↦ control_locked a c now expected h ]
]

-- `register_servers`, for one server.
unfoldable pub register_server : ℕ → String → Json → (Json → String) → Option Health → Health
register_server now name url print row = record (locked_or_create now name row) {
  public_url = text_or_none (text_or_empty print url);
  updated_at = now;
}

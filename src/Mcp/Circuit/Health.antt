-- ===== src/Mcp/Circuit/Health.antt =====
-- The row of `MCPServerHealth`, the settings that its methods read, and their errors.
use code_mate.Prelude.{ℕ, String, Bool, false, Option, none}
use code_mate.Json.{Fields}

pub data CircuitState : Type 0 where
  closed opened half_open : CircuitState

-- `untested` is "unknown".
pub data ProbeStatus : Type 0 where
  healthy unhealthy untested : ProbeStatus

-- Latencies are in hundredths of a millisecond, as `round(latency_ms, 2)` keeps them.
pub record Health : Type 0 where
  pub server_name : String
  pub public_url : Option String
  pub circuit_state : CircuitState
  pub manual_open : Bool
  pub consecutive_failures : ℕ
  pub total_requests : ℕ
  pub total_transport_successes : ℕ
  pub total_transport_failures : ℕ
  pub circuit_rejections : ℕ
  pub circuit_open_count : ℕ
  pub total_probes : ℕ
  pub failed_probes : ℕ
  pub last_probe_status : ProbeStatus
  pub last_probe_at : Option ℕ
  pub last_success_at : Option ℕ
  pub last_failure_at : Option ℕ
  pub last_latency_ms : Option ℕ
  pub last_error : Option String
  pub protocol_version : Option String
  pub server_info_json : Option Fields
  pub opened_at : Option ℕ
  pub cooldown_until : Option ℕ
  pub half_open_trial_id : Option String
  pub half_open_lease_expires_at : Option ℕ
  pub version : ℕ
  pub created_at : ℕ
  pub updated_at : ℕ

pub record Settings : Type 0 where
  pub circuit_breaker_enabled : Bool
  pub circuit_failure_threshold : ℕ
  pub circuit_cooldown_seconds : ℕ
  pub circuit_half_open_lease_seconds : ℕ

-- `MCPServerHealth(server_name=...)`: the defaults of the columns.
unfoldable pub new_health : ℕ → String → Health
new_health now name = record {
  server_name = name;
  public_url = none;
  circuit_state = closed;
  manual_open = false;
  consecutive_failures = 0;
  total_requests = 0;
  total_transport_successes = 0;
  total_transport_failures = 0;
  circuit_rejections = 0;
  circuit_open_count = 0;
  total_probes = 0;
  failed_probes = 0;
  last_probe_status = untested;
  last_probe_at = none;
  last_success_at = none;
  last_failure_at = none;
  last_latency_ms = none;
  last_error = none;
  protocol_version = none;
  server_info_json = none;
  opened_at = none;
  cooldown_until = none;
  half_open_trial_id = none;
  half_open_lease_expires_at = none;
  version = 1;
  created_at = now;
  updated_at = now;
}

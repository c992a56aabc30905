-- ===== src/Mcp/Quota/Changes.antt =====
-- How `update_policy` reads a payload beside the policy: `policy_payload`, the fields that may not
-- change, and `current.update(payload)`.
use text.Mathlib.Text.{◌==◌ as str_eq}
use code_mate.Mcp.Quota.Payload.{Payload}
use code_mate.Json.{pos, ℤ}
use code_mate.Mcp.Quota.Policy.{Policy}
use code_mate.Prelude.{true, not, ◌||◌, false, none, Bool, some, ℕ, Option, String}

-- `field in payload and payload[field] != current[field]`
abbrev pub is_changed : Option (Option String) → Option String → Bool
is_changed none current = false
is_changed (some none) none = false
is_changed (some none) (some t) = true
is_changed (some (some s)) none = true
is_changed (some (some s)) (some t) = not (str_eq s t)

unfoldable pub changes_scope : Payload → Policy → Bool
changes_scope payload p =
    is_changed payload.repo_id p.repo_id
    || is_changed payload.principal_type (some p.principal_type)
    || is_changed payload.principal_id (some p.principal_id)
    || is_changed payload.server_name (some p.server_name)
    || is_changed payload.tool_name (some p.tool_name)

abbrev pub number : Option ℕ → Option (Option ℤ)
number none = some none
number (some n) = some (some (pos n))

-- `policy_payload`
unfoldable pub policy_payload : Policy → Payload
policy_payload p = record {
  repo_id = some p.repo_id;
  principal_type = some (some p.principal_type);
  principal_id = some (some p.principal_id);
  server_name = some (some p.server_name);
  tool_name = some (some p.tool_name);
  rate_limit_per_minute = number p.limits.rate_limit_per_minute;
  daily_call_limit = number p.limits.daily_call_limit;
  daily_cost_limit = number p.limits.daily_cost_limit;
  concurrent_limit = number p.limits.concurrent_limit;
  run_call_limit = number p.limits.run_call_limit;
  max_run_duration_seconds = number p.limits.max_run_duration_seconds;
  call_cost_units = some (some (pos p.limits.call_cost_units));
  warning_threshold = some (some (pos p.warning_threshold));
  enabled = some (some p.enabled);
  frozen = some (some p.frozen);
}

abbrev pub over {ℓ} : {A : Type ℓ} → Option A → Option A → Option A
over none current = current
over (some v) current = some v

-- `current.update(payload)`
unfoldable pub update_payload : Payload → Payload → Payload
update_payload payload current = record {
  repo_id = over payload.repo_id current.repo_id;
  principal_type = over payload.principal_type current.principal_type;
  principal_id = over payload.principal_id current.principal_id;
  server_name = over payload.server_name current.server_name;
  tool_name = over payload.tool_name current.tool_name;
  rate_limit_per_minute = over payload.rate_limit_per_minute current.rate_limit_per_minute;
  daily_call_limit = over payload.daily_call_limit current.daily_call_limit;
  daily_cost_limit = over payload.daily_cost_limit current.daily_cost_limit;
  concurrent_limit = over payload.concurrent_limit current.concurrent_limit;
  run_call_limit = over payload.run_call_limit current.run_call_limit;
  max_run_duration_seconds = over payload.max_run_duration_seconds current.max_run_duration_seconds;
  call_cost_units = over payload.call_cost_units current.call_cost_units;
  warning_threshold = over payload.warning_threshold current.warning_threshold;
  enabled = over payload.enabled current.enabled;
  frozen = over payload.frozen current.frozen;
}

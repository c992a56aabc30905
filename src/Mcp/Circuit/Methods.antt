-- ===== src/Mcp/Circuit/Methods.antt =====
-- The methods of `MCPOperationsService` on the row that they have locked. A method that can raise
-- returns what became of the call, and the row as it has been committed.
use text.Mathlib.Text.{◌==◌ as str_eq}
use code_mate.Prelude.{
  ℕ, ◌+◌, ◌-◌, String, Bool, true, false, not, ◌&&◌, ◌||◌, Option, none, some, max, ltb, leb,
  if◌then◌else◌,
}
use code_mate.Text.{take}
use code_mate.Json.{Json, Fields, get, truthy, mapping_or_none, or_empty}
use code_mate.Mcp.Circuit.Health.{
  CircuitState, closed, opened, half_open, healthy, unhealthy, Health, Settings, new_health,
}

-- `_locked_or_create`: the row of the server, or a fresh one. The insert that loses a race reads
-- the winner's row.
abbrev pub locked_or_create : ℕ → String → Option Health → Health
locked_or_create now name none = new_health now name
locked_or_create now name (some h) = h

abbrev pub is_open : CircuitState → Bool
is_open opened = true
is_open s = false

abbrev pub is_half_open : CircuitState → Bool
is_half_open half_open = true
is_half_open s = false

-- `_close_circuit`
unfoldable pub close_circuit : Health → Health
close_circuit h = record h {
  circuit_state = closed;
  consecutive_failures = 0;
  opened_at = none;
  cooldown_until = none;
  half_open_trial_id = none;
  half_open_lease_expires_at = none;
}

-- `_open_circuit`
unfoldable pub open_circuit : Settings → ℕ → Bool → Health → Health
open_circuit c now manual h = record h {
  circuit_open_count =
      if is_open h.circuit_state then h.circuit_open_count else h.circuit_open_count + 1;
  circuit_state = opened;
  manual_open = manual;
  opened_at = some now;
  cooldown_until = if manual then none else some (now + max 1 c.circuit_cooldown_seconds);
  half_open_trial_id = none;
  half_open_lease_expires_at = none;
}

-- `_record_failure`
unfoldable pub record_failure : Settings → String → ℕ → ℕ → Health → Health
unfolding open_circuit
record_failure c error latency now h =
    let failed = record h {
      consecutive_failures = h.consecutive_failures + 1;
      last_failure_at = some now;
      last_latency_ms = some latency;
      last_error = some (take 4000 error);
    } in
    let should_open =
      is_half_open h.circuit_state
      || leb (max 1 c.circuit_failure_threshold) failed.consecutive_failures in
    if c.circuit_breaker_enabled && should_open && not h.manual_open
    then open_circuit c now false failed
    else failed

-- `now < time`, where there is a time
abbrev pub is_before : ℕ → Option ℕ → Bool
is_before now none = false
is_before now (some t) = ltb now t

-- `now < time`, or there is no time
abbrev pub is_before_or_none : ℕ → Option ℕ → Bool
is_before_or_none now none = true
is_before_or_none now (some t) = ltb now t

-- `trial_id and trial_id != execution_id`
abbrev pub is_other_trial : Option String → String → Bool
is_other_trial none id = false
is_other_trial (some t) id = not (str_eq t "") && not (str_eq t id)

-- `MCPCircuitOpenError.retry_after_seconds`
abbrev pub retry_after : ℕ → Option ℕ → Option ℕ
retry_after now none = none
retry_after now (some t) = some (t - now)

-- The row is returned, or `MCPCircuitOpenError` is raised.
pub data Admission : Type 0 where
  admitted : Admission
  rejected : Option ℕ → Admission

unfoldable pub reject : ℕ → Health → Admission × Health
reject now h = (
  rejected (retry_after now h.cooldown_until),
  record h {
    circuit_rejections = h.circuit_rejections + 1;
    version = h.version + 1;
    updated_at = now;
  },
)

unfoldable pub admit : ℕ → Health → Admission × Health
admit now h = (
  admitted,
  record h { total_requests = h.total_requests + 1; version = h.version + 1; updated_at = now },
)

-- The trial of a half-open circuit.
unfoldable pub start_trial : Settings → ℕ → String → Health → Health
start_trial c now id h = record h {
  half_open_trial_id = some id;
  half_open_lease_expires_at = some (now + max 1 c.circuit_half_open_lease_seconds);
}

unfoldable pub before_execution_at :
    CircuitState → Settings → ℕ → String → Health → Admission × Health
unfolding reject admit start_trial
before_execution_at opened c now id h =
    if h.manual_open || is_before_or_none now h.cooldown_until
    then reject now h
    else admit now (start_trial c now id (record h { circuit_state = half_open }))
before_execution_at half_open c now id h =
    if is_other_trial h.half_open_trial_id id && is_before now h.half_open_lease_expires_at
    then reject now h
    else admit now (start_trial c now id h)
before_execution_at closed c now id h = admit now h

unfoldable pub before_execution :
    Settings → ℕ → String → String → Option Health → Admission × Health
unfolding admit
before_execution c now name id row =
    let h = locked_or_create now name row in
    if c.circuit_breaker_enabled
    then before_execution_at h.circuit_state c now id h
    else admit now h

-- The end of every method that records something: `version += 1`, `updated_at = now`.
unfoldable pub touch : ℕ → Health → Health
touch now h = record h { version = h.version + 1; updated_at = now }

unfoldable pub record_transport_success : ℕ → String → ℕ → Option Health → Health
unfolding close_circuit touch
record_transport_success now name latency row =
    let h = locked_or_create now name row in
    let succeeded = record h {
      total_transport_successes = h.total_transport_successes + 1;
      consecutive_failures = 0;
      last_success_at = some now;
      last_latency_ms = some latency;
      last_error = none;
    } in
    touch now (if h.manual_open then succeeded else close_circuit succeeded)

unfoldable pub record_transport_failure :
    Settings → ℕ → String → String → ℕ → Option Health → Health
unfolding record_failure touch
record_transport_failure c now name error latency row =
    let h = locked_or_create now name row in
    touch now (
      record_failure c error latency now
        (record h { total_transport_failures = h.total_transport_failures + 1 }))

-- `text or None`
abbrev pub text_or_none : String → Option String
text_or_none s = if str_eq s "" then none else some s

-- `str(value or "")`
abbrev pub text_or_empty : (Json → String) → Json → String
text_or_empty print v = if truthy v then print v else ""

-- `error or "Health probe failed"`
abbrev pub probe_error : Option String → String
probe_error none = "Health probe failed"
probe_error (some e) = if str_eq e "" then "Health probe failed" else e

-- `record_probe`; `print` is Python's `str`.
unfoldable pub record_probe :
    (Json → String)
    → Settings
    → ℕ
    → String
    → Bool
    → ℕ
    → Option Fields
    → Option String
    → Option Health
    → Health
unfolding close_circuit record_failure touch
record_probe print c now name ok latency result error row =
    let h = locked_or_create now name row in
    let probed = record h {
      total_probes = h.total_probes + 1;
      last_probe_at = some now;
      last_latency_ms = some latency;
    } in
    let answered = record probed {
      last_probe_status = healthy;
      last_success_at = some now;
      consecutive_failures = 0;
      last_error = none;
      protocol_version =
          text_or_none (text_or_empty print (get "protocol_version" (or_empty result)));
      server_info_json = mapping_or_none (get "server_info" (or_empty result));
    } in
    if ok
    then touch now (if h.manual_open then answered else close_circuit answered)
    else touch now (
        record_failure c (probe_error error) latency now
          (record probed { failed_probes = h.failed_probes + 1; last_probe_status = unhealthy }))

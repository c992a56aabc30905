-- ===== src/Mcp/Quota/Booking.antt =====
-- What `reserve` of backend/app/services/mcp_quota_service.py writes: events with leases, the charges
-- of the policies, and rejections.
use text.Mathlib.Text.{◌==◌ as str_eq}
use Prim.Native.String.{◌++◌ as str_append}
use code_mate.Prelude.{
  ℕ, String, Bool, false, not, ◌||◌, Option, none, some, List, [], ◌∷◌, max, if◌then◌else◌,
}
use code_mate.Mcp.Quota.Policy.{Policy, Context, effective_policy_values}
use code_mate.Mcp.Quota.Usage.{Event, Charge, Rejection, Database}
use code_mate.Mcp.Quota.Check.{Denial}
use code_mate.Mcp.Quota.RedisReserve.{Settings, Redis, Exceeded, lease_end}

-- `MCPQuotaReservation`
pub record Reservation : Type 0 where
  pub event_id : Option String
  pub lease_token : Option String
  pub policy_ids : List String
  pub enabled : Bool

-- The reservation, or the error that is raised.
pub data Result : Type 0 where
  reserved : Reservation → Result
  exceeded : Exceeded → Result
  conflict : String → Result
  unavailable_error : String → Result

-- What a call finds and leaves: the tables, and the keys of Redis.
pub record World : Type 0 where
  pub database : Database
  pub redis : Redis

-- What a call of `reserve` is given, and when the rows that it adds are inserted, for a charge by its
-- policy: `created_at` is the time of the INSERT, which comes after `now`.
pub record Call : Type 0 where
  pub now : ℕ
  pub fresh_id : String
  pub fresh_token : String
  pub redis_answers : Bool
  pub context : Context
  pub server_name : String
  pub tool_name : String
  pub idempotency_key : String
  pub execution_id : Option String
  pub event_created_at : ℕ
  pub charge_created_at : String → ℕ
  pub rejection_created_at : ℕ

abbrev pub no_reservation : Reservation
no_reservation = record { event_id = none; lease_token = none; policy_ids = []; enabled = false }

unfoldable pub find_key : String → List Event → Option Event
find_key key [] = none
find_key key (e ∷ es) = if str_eq e.idempotency_key key then some e else find_key key es

unfoldable pub policy_ids : List Policy → List String
policy_ids [] = []
policy_ids (p ∷ ps) = p.id ∷ policy_ids ps

-- `max([call_cost_units of each policy])`
unfoldable pub max_cost : ℕ → List Policy → ℕ
unfolding effective_policy_values
max_cost now [] = 0
max_cost now (p ∷ ps) = max (effective_policy_values p now).call_cost_units (max_cost now ps)

unfoldable pub rejection_of : Call → Option String → Denial → String → Option String → Rejection
rejection_of call policy_id d detail source = record {
  policy_id = policy_id;
  tenant_id = call.context.tenant_id;
  repo_id = call.context.repo_id;
  run_id = call.context.run_id;
  principal_type = call.context.principal_type;
  principal_id = call.context.principal_id;
  server_name = call.server_name;
  tool_name = call.tool_name;
  reason = d.reason;
  retry_after_seconds = d.retry_after_seconds;
  detail = detail;
  source = source;
  created_at = call.rejection_created_at;
}

abbrev pub with_rejection : Rejection → Database → Database
with_rejection r db = record db { rejections = r ∷ db.rejections }

-- `f"MCP quota denied {server_name}.{tool_name}: {reason}"`
abbrev pub denial_text : Call → String → String
denial_text call reason = str_append "MCP quota denied " (
    str_append call.server_name
      (str_append "." (str_append call.tool_name (str_append ": " reason))))

-- `_reject`
unfoldable pub reject : Call → Policy → Denial → World → Result × World
unfolding rejection_of
reject call p d w =
    let detail = denial_text call d.reason in
    (
      exceeded (record {
        reason = d.reason;
        policy_id = some p.id;
        retry_after_seconds = d.retry_after_seconds;
        detail = detail;
      }),
      record w {
        database = with_rejection (rejection_of call (some p.id) d detail none) w.database;
      },
    )

-- The event is another request's.
abbrev pub is_other_request : Call → Event → Bool
is_other_request call e =
    not (str_eq e.tenant_id call.context.tenant_id)
    || not (str_eq e.server_name call.server_name)
    || not (str_eq e.tool_name call.tool_name)

-- The event is reserved: the five assignments.
unfoldable pub lease_event : Settings → Call → Event → Event
lease_event c call e = record e {
  status = "reserved";
  lease_token = some call.fresh_token;
  lease_expires_at = some (lease_end c call.now);
  released_at = none;
  updated_at = call.now;
}

unfoldable pub new_event : Call → ℕ → Event
new_event call cost = record {
  id = call.fresh_id;
  idempotency_key = call.idempotency_key;
  execution_id = call.execution_id;
  tenant_id = call.context.tenant_id;
  repo_id = call.context.repo_id;
  run_id = call.context.run_id;
  delegated_identity_id = call.context.delegated_identity_id;
  principal_type = call.context.principal_type;
  principal_id = call.context.principal_id;
  server_name = call.server_name;
  tool_name = call.tool_name;
  cost_units = cost;
  status = "reserved";
  lease_token = none;
  lease_expires_at = none;
  released_at = none;
  created_at = call.event_created_at;
  updated_at = call.now;
}

-- The flush of a changed row.
unfoldable pub replace_event : Event → List Event → List Event
replace_event new [] = []
replace_event new (e ∷ es) =
    let rest = replace_event new es in if str_eq e.id new.id then new ∷ rest else e ∷ rest

abbrev pub charge_of : Call → ℕ → Policy → Charge
charge_of call cost p = record {
  event_id = call.fresh_id;
  policy_id = p.id;
  calls = 1;
  cost_units = cost;
  created_at = call.charge_created_at p.id;
}

unfoldable pub add_charges : Call → ℕ → List Policy → List Charge → List Charge
add_charges call cost [] charges = charges
add_charges call cost (p ∷ ps) charges = charge_of call cost p ∷ add_charges call cost ps charges

-- `existing or MCPQuotaEvent(…)`, leased
abbrev pub leased_event : Settings → Call → ℕ → Option Event → Event
leased_event c call cost none = lease_event c call (new_event call cost)
leased_event c call cost (some e) = lease_event c call e

-- The tables with the event and, for a new one, its charges.
abbrev pub book : Settings → Call → ℕ → List Policy → Option Event → Database → Database
book c call cost ps none db = record db {
  events = lease_event c call (new_event call cost) ∷ db.events;
  charges = add_charges call cost ps db.charges;
}
book c call cost ps (some e) db = record db {
  events = replace_event (lease_event c call e) db.events;
}

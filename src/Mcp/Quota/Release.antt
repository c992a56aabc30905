-- ===== src/Mcp/Quota/Release.antt =====
-- `release`: the lease of an event is given back, if it is still the reservation's.
use text.Mathlib.Text.{◌==◌ as str_eq}
use code_mate.Prelude.{ℕ, String, Bool, true, false, not, ◌||◌, Option, none, some, if◌then◌else◌}
use code_mate.Text.{take}
use code_mate.Mcp.Quota.Usage.{Event, Database, find_event}
use code_mate.Mcp.Quota.RedisReserve.{Settings, redis_release}
use code_mate.Mcp.Quota.Booking.{Reservation, World, replace_event}

-- `event.lease_token == reservation.lease_token`
abbrev pub same_token : Option String → Option String → Bool
same_token none none = true
same_token none (some t) = false
same_token (some t) none = false
same_token (some t) (some u) = str_eq t u

unfoldable pub release_event : ℕ → String → Event → Event
release_event now outcome e = record e {
  status = take 32 outcome;
  lease_token = none;
  lease_expires_at = none;
  released_at = some now;
  updated_at = now;
}

abbrev pub release_in : ℕ → String → Option String → Option Event → Database → Database
release_in now outcome token none db = db
release_in now outcome token (some e) db =
    if same_token e.lease_token token
    then record db { events = replace_event (release_event now outcome e) db.events }
    else db

abbrev pub release_id : Settings → Bool → ℕ → String → Reservation → Option String → World → World
release_id c answers now outcome r none w = w
release_id c answers now outcome r (some id) w =
    if not r.enabled || str_eq id "" then w else record {
      database = release_in now outcome r.lease_token (find_event id w.database.events) w.database;
      redis = redis_release c answers r.policy_ids id w.redis;
    }

unfoldable pub release : Settings → Bool → ℕ → String → Reservation → World → World
release c answers now outcome r w = release_id c answers now outcome r r.event_id w

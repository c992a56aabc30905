-- ===== src/Mcp/Quota/Reserve.antt =====
-- `reserve` and `release`. The policies are locked while a call runs, so a call is one step; the
-- retry after an IntegrityError, when another call has inserted the same key, is the same call after
-- that one. The session's time is the call's, and the id of the event and the token are fresh.
use text.Mathlib.Text.{◌==◌ as str_eq}
use code_mate.Prelude.{
  ℕ, ◌-◌, true, not, Option, none, some, List, [], ◌∷◌, max, is_some, if◌then◌else◌,
}
use code_mate.Mcp.Quota.Policy.{Policy, Membership, is_later, matching_policies}
use code_mate.Mcp.Quota.Usage.{Event, Database, ceil_seconds}
use code_mate.Mcp.Quota.Check.{Denial, check_policies}
use code_mate.Mcp.Quota.RedisReserve.{
  Settings, Outside, Redis, Limiter, passed, limited, unavailable, redis_reserve, redis_release,
}
use code_mate.Mcp.Quota.Booking.{
  Result, reserved, exceeded, conflict, unavailable_error, World, Call, no_reservation, find_key,
  policy_ids, max_cost, rejection_of, with_rejection, reject, is_other_request, leased_event, book,
}

-- The end of `reserve`, by what `_redis_reserve` has done: a commit, or a rollback.
unfoldable pub settle :
    Settings → Call → ℕ → List Policy → Option Event → Database → Limiter × Redis → Result × World
unfolding policy_ids rejection_of redis_release
settle c call cost ps existing db (passed, r) = (
  reserved (record {
    event_id = some (leased_event c call cost existing).id;
    lease_token = some call.fresh_token;
    policy_ids = policy_ids ps;
    enabled = true;
  }),
  record { database = book c call cost ps existing db; redis = r },
)
settle c call cost ps existing db (limited x, r) = (
  exceeded x,
  record {
    database =
        with_rejection
          (rejection_of call x.policy_id
            (record { reason = x.reason; retry_after_seconds = x.retry_after_seconds }) x.detail
            (some "redis"))
          db;
    redis = r;
  },
)
settle c call cost ps existing db (unavailable, r) = (
  unavailable_error "MCP quota Redis backend is unavailable",
  record {
    database = db;
    redis =
        redis_release c call.redis_answers (policy_ids ps) (leased_event c call cost existing).id r;
  },
)

-- `reserve` from the loop over the policies on.
abbrev pub after_check :
    Settings
    → Outside
    → Call
    → ℕ
    → List Policy
    → Option Event
    → World
    → Option (Policy × Denial)
    → Result × World
after_check c o call cost ps existing w (some (p, d)) = reject call p d w
after_check c o call cost ps existing w none = settle c call cost ps existing w.database (
    redis_reserve c o call.redis_answers call.now ps (leased_event c call cost existing).id
      call.idempotency_key cost (is_some existing) call.context.run_id w.redis)

-- `idempotency_in_progress`
abbrev pub in_progress : ℕ → Option ℕ → Denial
in_progress now none = record { reason = "idempotency_in_progress"; retry_after_seconds = none }
in_progress now (some t) = record {
  reason = "idempotency_in_progress";
  retry_after_seconds = some (max 1 (ceil_seconds (t - now)));
}

-- `reserve` where the event of the key has been read; `p` is the first of the policies.
abbrev pub reserve_event :
    Settings → Outside → Call → Policy → List Policy → World → Option Event → Result × World
reserve_event c o call p ps w none =
    let cost = max_cost call.now (p ∷ ps) in
    after_check c o call cost (p ∷ ps) none w
      (check_policies (p ∷ ps) call.context call.now cost none w.database)
reserve_event c o call p ps w (some e) =
    let cost = max_cost call.now (p ∷ ps) in
    if is_other_request call e
    then (conflict "Quota idempotency key was reused for another request", w)
    else if is_later e.lease_expires_at call.now
    then reject call p (in_progress call.now e.lease_expires_at) w
    else after_check c o call cost (p ∷ ps) (some e) w
        (check_policies (p ∷ ps) call.context call.now cost (some e) w.database)

abbrev pub reserve_matching : Settings → Outside → Call → List Policy → World → Result × World
reserve_matching c o call [] w = (reserved no_reservation, w)
reserve_matching c o call (p ∷ ps) w =
    reserve_event c o call p ps w (find_key call.idempotency_key w.database.events)

unfoldable pub reserve :
    Settings → Outside → List Policy → List Membership → Call → World → Result × World
unfolding matching_policies
reserve c o policies members call w =
    if not c.mcp_quota_enabled
    then (reserved no_reservation, w)
    else if str_eq call.context.tenant_id ""
    then (unavailable_error "MCP quota context has no tenant", w)
    else reserve_matching c o call
        (matching_policies call.context call.server_name call.tool_name members policies) w

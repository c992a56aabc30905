-- ===== src/Mcp/Quota/Examples.antt =====
-- One tenant with one policy, its calls, and the theorems at them.
use code_mate.Mcp.Quota.StaleRelease.{stale_release_frees_slot}
use code_mate.Mcp.Quota.Retention.{IsPrompt, purge_keeps_usage}
use code_mate.Mcp.Quota.Release.{same_token, release}
use code_mate.Mcp.Quota.Sums.{AreDistinct}
use code_mate.Mcp.Quota.Purge.{purge_usage}
use code_mate.Dict.{lookup}
use code_mate.Mcp.Quota.Exclusion.{lease_excludes_key, grants}
use code_mate.Lists.{length, All, member}
use code_mate.Mcp.Quota.Script.{
  keys_of, prune, count_keys, count_loop, check_member, check_keys, check_loop, expire_policies,
  reserve_script,
}
use code_mate.Mcp.Quota.Usage.{day, Event, find_event, policy_usage}
use code_mate.Mcp.Quota.Check.{check_counts, check_usage, check_policy, check_policies}
use code_mate.Mcp.Quota.Unique.{IsFresh, step-IsUnique}
use code_mate.Mcp.Quota.Steps.{run, releases, Step, reserves, step}
use code_mate.Mcp.Quota.Keys.{IsUnique, charges_for}
use code_mate.Mcp.Quota.Accepted.{reserve-IsFitting, IsFitting}
use code_mate.Mcp.Quota.Reserve.{settle, reserve}
use code_mate.Mcp.Quota.Booking.{
  add_charges, reserved, new_event, lease_event, policy_ids, find_key, Reservation, World, Call,
}
use code_mate.Mcp.Quota.Payload.{one, default_threshold}
use code_mate.Mcp.Quota.Policy.{
  effective_policy_values, is_principal, role_of, principals, filter_matching, matching_policies,
  Context, Policy, Limits,
}
use code_mate.Mcp.Quota.RedisReserve.{
  limits_of, script_arguments, eval_script, redis_reserve, Outside, Settings,
}
use Prim.Native.Nat.{◌/◌}
use code_mate.Prelude.{refl, arith, ◌≤◌, false, ◌∷◌, [], ◌+◌, ◌*◌, none, some, true, String, ℕ, ◌≡◌}

abbrev pub settings : Settings
settings = record {
  mcp_quota_enabled = true;
  is_redis = true;
  mcp_quota_fail_closed = true;
  mcp_quota_concurrency_lease_seconds = 180;
  mcp_quota_max_policies_per_tenant = 64;
}

-- Stand-ins for `strftime`, `sha256` and the rounding of a time to live.
abbrev same_text : ℕ → String
same_text t = "now"

abbrev same : String → String
same s = s

abbrev pub in_seconds : ℕ → ℕ
in_seconds t = t / 1000000

abbrev pub outside : Outside
outside = record { minute_text = same_text; day_text = same_text; sha256 = same; ttl = in_seconds }

abbrev pub limits : Limits
limits = record {
  rate_limit_per_minute = some 5;
  daily_call_limit = some 50;
  daily_cost_limit = none;
  concurrent_limit = some 1;
  run_call_limit = some 20;
  max_run_duration_seconds = none;
  call_cost_units = one;
}

abbrev pub policy : Policy
policy = record {
  id = "p1";
  scope_key = "t1/*";
  tenant_id = "t1";
  repo_id = none;
  principal_type = "*";
  principal_id = "*";
  server_name = "ci";
  tool_name = "*";
  limits = limits;
  warning_threshold = default_threshold;
  enabled = true;
  frozen = false;
  temporary_override_json = none;
  temporary_override_expires_at = none;
  reset_at = none;
  version = 1;
  created_by = "root";
  updated_by = "root";
  updated_at = 0;
}

abbrev pub context : Context
context = record {
  tenant_id = "t1";
  repo_id = some "r1";
  run_id = some "run1";
  principal_type = "user";
  principal_id = "ana";
  principal_provider = none;
  delegated_identity_id = none;
  run_created_at = none;
}

abbrev pub start : ℕ
start = 1700000000000000

abbrev first_call : Call
first_call = record {
  now = start;
  fresh_id = "e1";
  fresh_token = "token1";
  redis_answers = true;
  context = context;
  server_name = "ci";
  tool_name = "build";
  idempotency_key = "k1";
  execution_id = none;
  event_created_at = start + 1000;
  charge_created_at = λ id. start + 2000;
  rejection_created_at = start + 1000;
}

-- The same request again, ten seconds later.
abbrev again : Call
again = record first_call { now = start + 10000000; fresh_id = "e2"; fresh_token = "token2" }

abbrev pub empty_world : World
empty_world = record {
  database = record { events = []; charges = []; rejections = [] };
  redis = record { reconciling = []; policies = [] };
}

abbrev first_reservation : Reservation
first_reservation = record {
  event_id = some "e1";
  lease_token = some "token1";
  policy_ids = "p1" ∷ [];
  enabled = true;
}

-- The world after the first call.
abbrev leased_world : World
leased_world = (reserve settings outside (policy ∷ []) [] first_call empty_world).1

-- A probe of what is returned.
first_reserved :
    (reserve settings outside (policy ∷ []) [] first_call empty_world).0
    ≡ reserved first_reservation
unfolding reserve matching_policies filter_matching principals role_of is_principal find_key
    check_policies check_policy effective_policy_values policy_usage check_usage check_counts settle
    redis_reserve eval_script script_arguments limits_of reserve_script expire_policies check_loop
    check_keys check_member count_loop count_keys policy_ids lease_event new_event prune lookup
    length
first_reserved = refl

one-AreDistinct : AreDistinct (policy ∷ [])
unfolding member policy_ids
one-AreDistinct = (refl, tt)

reserve-IsFitting_example :
    IsFitting first_call
      (matching_policies context "ci" "build" [] (policy ∷ []))
      (find_key "k1" [])
      leased_world.database
reserve-IsFitting_example =
    reserve-IsFitting settings outside first_call first_reservation empty_world tt tt (policy ∷ [])
      [] one-AreDistinct first_reserved refl

none_charged : (event_id policy_id : String) → charges_for event_id policy_id [] ≤ 1
unfolding charges_for
none_charged event_id policy_id = omega arith

empty-IsUnique : IsUnique empty_world.database
empty-IsUnique = record { keyed = tt; joined = tt; once = none_charged }

abbrev first_step : Step
first_step = reserves (policy ∷ []) [] first_call

first-IsFresh : IsFresh first_step empty_world
unfolding find_event
first-IsFresh = (one-AreDistinct, refl)

step-IsUnique_example : IsUnique (step settings outside first_step empty_world).database
step-IsUnique_example =
    step-IsUnique settings outside first_step empty_world first-IsFresh empty-IsUnique

-- Another caller's reservation, which is released in between.
abbrev old_reservation : Reservation
old_reservation = record first_reservation { lease_token = some "token0" }

lease_excludes_key_example :
    grants
      (reserve settings outside (policy ∷ []) [] again (
        run settings outside
          (releases true (start + 1) "succeeded" old_reservation ∷ [])
          leased_world)).0
    ≡ false
lease_excludes_key_example =
    lease_excludes_key settings outside (policy ∷ []) [] first_call first_reservation empty_world
      empty-IsUnique first-IsFresh first_reserved refl
      (releases true (start + 1) "succeeded" old_reservation ∷ []) (tt, refl, tt) (policy ∷ []) []
      again refl (omega arith)

-- The event of the first call, taken over by the second one.
abbrev taken_over : Event
unfolding lease_event new_event
taken_over = lease_event settings again (new_event first_call one)

abbrev taken_world : World
taken_world = record empty_world {
  database = record { events = taken_over ∷ []; charges = []; rejections = [] };
}

taken_found : find_event "e1" (taken_over ∷ []) ≡ some taken_over
unfolding find_event lease_event new_event
taken_found = refl

taken_stale : same_token taken_over.lease_token (some "token1") ≡ false
unfolding lease_event new_event
taken_stale = refl

stale_release_frees_slot_example :
    ((release settings true start "succeeded" first_reservation taken_world).database
      ≡ taken_world.database)
    × All
        (λ id.
          lookup "e1"
            (keys_of id
              (release settings true start "succeeded" first_reservation
                taken_world).redis.policies).concurrency
          ≡ none)
        ("p1" ∷ [])
stale_release_frees_slot_example =
    stale_release_frees_slot settings start "succeeded" taken_world first_reservation "e1"
      taken_over refl refl refl refl taken_found taken_stale

first-IsUnique : IsUnique (step settings outside first_step empty_world).database
first-IsUnique = step-IsUnique settings outside first_step empty_world first-IsFresh empty-IsUnique

-- The charge of the first call came a millisecond after its event.
first-IsPrompt :
    let db = (step settings outside first_step empty_world).database in
    All (IsPrompt db.events) db.charges
unfolding step reserve matching_policies filter_matching principals role_of is_principal find_key
    check_policies check_policy effective_policy_values policy_usage check_usage check_counts settle
    redis_reserve eval_script script_arguments limits_of reserve_script expire_policies check_loop
    check_keys check_member count_loop count_keys policy_ids lease_event new_event prune lookup
    length add_charges find_event
first-IsPrompt = (λ e found. ground (arith, found), tt)

-- Two months later, the event of the first call is deleted.
purge_keeps_usage_example :
    let db = (step settings outside first_step empty_world).database in
    let after = (purge_usage 45 "t1" none false (start + 60 * day) db).1 in
    let old_usage =
      policy_usage policy (start + 60 * day) (some "run1") none db.events db.charges in
    let new_usage =
      policy_usage policy (start + 60 * day) (some "run1") none after.events after.charges in
    (new_usage.minute_calls ≡ old_usage.minute_calls)
    × (new_usage.daily_calls ≡ old_usage.daily_calls)
    × (new_usage.daily_cost ≡ old_usage.daily_cost)
    × (new_usage.active_concurrency ≡ old_usage.active_concurrency)
purge_keeps_usage_example =
    purge_keeps_usage 45 "t1" none (start + 60 * day) (start + 60 * day) (omega arith) policy
      (step settings outside first_step empty_world).database first-IsUnique first-IsPrompt false
      (some "run1")

-- ===== src/Mcp/Quota/RedisReserve.antt =====
-- `_redis_reserve` and `_redis_release`: the call of the script, and what its answer means. Each
-- takes whether Redis answers at all.
use text.Mathlib.Text.{◌==◌ as str_eq}
use Prim.Native.Nat.{◌/◌}
use Prim.Native.String.{◌++◌ as str_append}
use code_mate.Prelude.{
  ℕ, zero, suc, ◌+◌, ◌*◌, String, Bool, false, not, ◌&&◌, Option, none, some, List, [], ◌∷◌, max,
  if◌then◌else◌,
}
use code_mate.Dict.{Dict, lookup, insert}
use code_mate.Mcp.Quota.Policy.{Policy, Limits, effective_policy_values}
use code_mate.Mcp.Quota.Usage.{second}
use code_mate.Mcp.Quota.Script.{
  PolicyKeys, Arguments, Answer, accepted, refused, is_alive, expire_policies, reserve_script,
}

-- `settings`: `is_redis` is `mcp_quota_backend.strip().lower() == "redis"`.
pub record Settings : Type 0 where
  pub mcp_quota_enabled : Bool
  pub is_redis : Bool
  pub mcp_quota_fail_closed : Bool
  pub mcp_quota_concurrency_lease_seconds : ℕ
  pub mcp_quota_max_policies_per_tenant : ℕ

-- `strftime` with the two formats, `sha256`, and how Redis rounds a time to live.
pub record Outside : Type 0 where
  pub minute_text : ℕ → String
  pub day_text : ℕ → String
  pub sha256 : String → String
  pub ttl : ℕ → ℕ

-- The keys of the service: the locks of reconciliations by tenant, and the keys of each policy.
pub record Redis : Type 0 where
  pub reconciling : Dict (String × ℕ)
  pub policies : Dict PolicyKeys

-- `int(time.timestamp() * 1000)`
abbrev pub to_ms : ℕ → ℕ
to_ms t = t / 1000

abbrev pub lease_end : Settings → ℕ → ℕ
lease_end c now = now + max 1 c.mcp_quota_concurrency_lease_seconds * second

-- `run_id or event_id`
abbrev pub run_or_event : Option String → String → String
run_or_event none event_id = event_id
run_or_event (some run) event_id = if str_eq run "" then event_id else run

unfoldable pub limits_of : ℕ → List Policy → List (String × Limits)
unfolding effective_policy_values
limits_of now [] = []
limits_of now (p ∷ ps) = (p.id, effective_policy_values p now) ∷ limits_of now ps

unfoldable pub script_arguments :
    Settings → Outside → ℕ → String → String → ℕ → Bool → Option String → Arguments
script_arguments c o now event_id key cost already_counted run_id = record {
  now = now;
  now_ms = to_ms now;
  lease_expiry = to_ms (lease_end c now);
  member = event_id;
  cost = cost;
  already_counted = already_counted;
  minute_key = o.minute_text now;
  day_key = o.day_text now;
  run_key = run_or_event run_id event_id;
  idem_key = o.sha256 key;
}

-- `MCPQuotaExceededError`
pub record Exceeded : Type 0 where
  pub reason : String
  pub policy_id : Option String
  pub retry_after_seconds : Option ℕ
  pub detail : String

-- It returns, or it raises one of the two errors.
pub data Limiter : Type 0 where
  passed : Limiter
  limited : Exceeded → Limiter
  unavailable : Limiter

-- `policies[index].id if raw_index > 0 else None`
abbrev pub policy_at : ℕ → List Policy → Option String
policy_at zero ps = none
policy_at (suc n) [] = none
policy_at (suc zero) (p ∷ ps) = some p.id
policy_at (suc (suc n)) (p ∷ ps) = policy_at (suc n) ps

-- `int(result[3]) if … > 0 else None`
abbrev pub positive : Option ℕ → Option ℕ
positive none = none
positive (some zero) = none
positive (some (suc n)) = some (suc n)

abbrev pub read_answer : List Policy → Answer × Dict PolicyKeys → Limiter
read_answer ps (accepted, d) = passed
read_answer ps (refused i x, d) = limited (record {
  reason = x.reason;
  policy_id = policy_at i ps;
  retry_after_seconds = positive x.retry_after_seconds;
  detail = str_append "MCP quota denied by distributed limiter: " x.reason;
})

abbrev pub is_set : ℕ → Option (String × ℕ) → Bool
is_set now none = false
is_set now (some v) = is_alive now v

-- The script at a time, on the keys that are left.
unfoldable pub eval_script :
    Outside → String → Arguments → List (String × Limits) → Redis → Answer × Dict PolicyKeys
unfolding reserve_script expire_policies
eval_script o tenant a ps r =
    reserve_script o.ttl (is_set a.now (lookup tenant r.reconciling)) a ps
      (expire_policies a.now r.policies)

-- `policies[0].tenant_id`
abbrev pub tenant_of : List Policy → String
tenant_of [] = ""
tenant_of (p ∷ ps) = p.tenant_id

unfoldable pub redis_reserve :
    Settings
    → Outside
    → Bool
    → ℕ
    → List Policy
    → String
    → String
    → ℕ
    → Bool
    → Option String
    → Redis
    → Limiter × Redis
unfolding eval_script script_arguments limits_of
redis_reserve c o answers now ps event_id key cost already_counted run_id r =
    let result =
      eval_script o (tenant_of ps)
        (script_arguments c o now event_id key cost already_counted run_id) (limits_of now ps) r in
    if not c.is_redis
    then (passed, r)
    else if not answers
    then (if c.mcp_quota_fail_closed then unavailable else passed, r)
    else (read_answer ps result, record r { policies = result.1 })

-- `zrem`
unfoldable pub remove_member : String → Dict ℕ → Dict ℕ
remove_member member [] = []
remove_member member ((m, score) ∷ d) =
    let rest = remove_member member d in if str_eq m member then rest else (m, score) ∷ rest

abbrev pub release_keys : String → PolicyKeys → PolicyKeys
release_keys member k = record k { concurrency = remove_member member k.concurrency }

-- One `zrem` of the pipeline; that of a missing key does nothing.
abbrev pub release_policy : String → String → Dict PolicyKeys → Option PolicyKeys → Dict PolicyKeys
release_policy member id d none = d
release_policy member id d (some k) = insert id (release_keys member k) d

-- The pipeline of `_redis_release`.
unfoldable pub release_loop : String → List String → Dict PolicyKeys → Dict PolicyKeys
release_loop member [] d = d
release_loop member (id ∷ ids) d =
    release_loop member ids (release_policy member id d (lookup id d))

unfoldable pub redis_release : Settings → Bool → List String → String → Redis → Redis
unfolding release_loop
redis_release c answers policy_ids event_id r =
    if c.is_redis && answers
    then record r { policies = release_loop event_id policy_ids r.policies }
    else r

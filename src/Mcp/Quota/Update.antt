-- ===== src/Mcp/Quota/Update.antt =====
-- `update_policy` and the methods that lock one policy and change it.
use code_mate.Mcp.Quota.Changes.{policy_payload, update_payload, changes_scope}
use code_mate.Mcp.Quota.Usage.{second}
use code_mate.Mcp.Quota.Script.{no_keys}
use code_mate.Dict.{insert, Dict}
use code_mate.Lists.{member}
use code_mate.Mcp.Quota.RedisReserve.{Settings, Redis}
use code_mate.Mcp.Quota.Payload.{
  ok, conflict, Checked, Payload, normalize_policy_payload, Normalized,
}
use code_mate.Mcp.Quota.Policy.{Policy}
use code_mate.Prelude.{
  ◌*◌, min, ◌==◌, ◌+◌, max, ◌&&◌, true, not, [], ◌||◌, if◌then◌else◌, false, ◌∷◌, none, Bool, List,
  some, ℕ, Option, String,
}
use code_mate.Mcp.Quota.Methods.{
  Result, done, conflict_error, not_found, redis_unavailable, Operator, policy_scope_key,
  find_policy, is_taken, replace_policy,
}

-- The rows of the table after `setattr` for every item of the normalized payload.
unfoldable pub write_policy : Operator → Normalized → Policy → Policy
unfolding policy_scope_key
write_policy op n p = record p {
  scope_key = policy_scope_key op n;
  tenant_id = n.tenant_id;
  repo_id = n.repo_id;
  principal_type = n.principal_type;
  principal_id = n.principal_id;
  server_name = n.server_name;
  tool_name = n.tool_name;
  limits = n.limits;
  warning_threshold = n.warning_threshold;
  enabled = n.enabled;
  frozen = n.frozen;
  updated_by = op.actor;
  version = p.version + 1;
  updated_at = op.now;
}

abbrev pub write_normalized :
    Operator → Policy → List Policy → Checked Normalized → Result × List Policy
write_normalized op p ps (conflict text) = (conflict_error text, ps)
write_normalized op p ps (ok n) =
    let new = write_policy op n p in
    if is_taken p.id new.scope_key ps
    then (conflict_error "A quota policy already exists for this scope", ps)
    else (done new, replace_policy new ps)

-- `update_policy` on the row.
abbrev pub update_found :
    Operator → Payload → ℕ → List Policy → Option Policy → Result × List Policy
update_found op payload expected ps none = (not_found, ps)
update_found op payload expected ps (some p) =
    if not (p.version == expected)
    then (conflict_error "Quota policy version conflict", ps)
    else if changes_scope payload p
    then (conflict_error "Quota policy scope is immutable; create a new policy instead", ps)
    else write_normalized op p ps (
        normalize_policy_payload op.default_cost p.tenant_id
          (update_payload payload (policy_payload p)))

unfoldable pub update_policy : Operator → String → Payload → ℕ → List Policy → Result × List Policy
unfolding find_policy
update_policy op id payload expected ps = update_found op payload expected ps (find_policy id ps)

-- What `disable_policy` writes.
unfoldable pub disabled_policy : Operator → Policy → Policy
disabled_policy op p = record p {
  enabled = false;
  updated_by = op.actor;
  version = p.version + 1;
  updated_at = op.now;
}

abbrev pub disable_found : Operator → List Policy → Option Policy → Result × List Policy
disable_found op ps none = (not_found, ps)
disable_found op ps (some p) = let new = disabled_policy op p in (done new, replace_policy new ps)

unfoldable pub disable_policy : Operator → String → List Policy → Result × List Policy
unfolding find_policy
disable_policy op id ps = disable_found op ps (find_policy id ps)

-- What `reset_policy` writes.
unfoldable pub reset_row : Operator → Policy → Policy
reset_row op p = record p {
  reset_at = some op.now;
  updated_by = op.actor;
  version = p.version + 1;
  updated_at = op.now;
}

-- `_clear_redis_policy`: the keys with the prefix of the policy, where Redis answers.
unfoldable pub clear_redis_policy : String → Redis → Redis
clear_redis_policy id r = record r { policies = insert id no_keys r.policies }

-- `reset_policy` on the row.
abbrev pub reset_found :
    Settings
    → Bool
    → Operator
    → ℕ
    → List Policy
    → Redis
    → Option Policy
    → (Result × List Policy) × Redis
reset_found c answers op expected ps r none = ((not_found, ps), r)
reset_found c answers op expected ps r (some p) =
    let new = reset_row op p in
    if not (p.version == expected)
    then ((conflict_error "Quota policy version conflict", ps), r)
    else if not c.is_redis
    then ((done new, replace_policy new ps), r)
    else if answers
    then ((done new, replace_policy new ps), clear_redis_policy p.id r)
    else if c.mcp_quota_fail_closed
    then ((redis_unavailable, ps), r)
    else ((done new, replace_policy new ps), r)

unfoldable pub reset_policy :
    Settings → Bool → Operator → String → ℕ → List Policy → Redis → (Result × List Policy) × Redis
unfolding find_policy
reset_policy c answers op id expected ps r =
    reset_found c answers op expected ps r (find_policy id ps)

-- `allowed`
abbrev pub allowed : List String
allowed =
    "rate_limit_per_minute" ∷ "daily_call_limit" ∷ "daily_cost_limit" ∷ "concurrent_limit"
    ∷ "run_call_limit" ∷ "max_run_duration_seconds" ∷ []

-- `set(overrides) - allowed`, whether it is empty
unfoldable pub are_allowed : Dict (Option ℕ) → Bool
unfolding member
are_allowed [] = true
are_allowed ((key, v) ∷ d) = member key allowed && are_allowed d

abbrev pub is_empty : Dict (Option ℕ) → Bool
is_empty [] = true
is_empty (item ∷ d) = false

-- What `temporarily_adjust_policy` writes.
unfoldable pub adjusted_policy : Operator → Dict (Option ℕ) → ℕ → Policy → Policy
adjusted_policy op overrides duration p = record p {
  temporary_override_json = some overrides;
  temporary_override_expires_at = some (op.now + max 60 (min duration 604800) * second);
  updated_by = op.actor;
  version = p.version + 1;
  updated_at = op.now;
}

abbrev pub adjust_found :
    Operator → Dict (Option ℕ) → ℕ → ℕ → List Policy → Option Policy → Result × List Policy
adjust_found op overrides duration expected ps none = (not_found, ps)
adjust_found op overrides duration expected ps (some p) =
    let new = adjusted_policy op overrides duration p in
    if not (p.version == expected)
    then (conflict_error "Quota policy version conflict", ps)
    else (done new, replace_policy new ps)

unfoldable pub temporarily_adjust_policy :
    Operator → String → Dict (Option ℕ) → ℕ → ℕ → List Policy → Result × List Policy
unfolding find_policy are_allowed
temporarily_adjust_policy op id overrides duration expected ps =
    if is_empty overrides || not (are_allowed overrides)
    then (conflict_error "Unsupported temporary quota override", ps)
    else adjust_found op overrides duration expected ps (find_policy id ps)

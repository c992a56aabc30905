-- ===== src/Mcp/Quota/PolicyExamples.antt =====
-- An operator creates and changes a policy.
use code_mate.Mcp.Quota.Changes.{policy_payload, update_payload, changes_scope}
use code_mate.Json.{pos}
use code_mate.Mcp.Quota.Scope.{update_keeps_scope, HasScopeOf}
use code_mate.Mcp.Quota.Update.{write_policy, update_policy}
use code_mate.Mcp.Quota.Methods.{done, is_taken, policy_scope_key, find_policy, Operator}
use code_mate.Mcp.Quota.Valid.{normalize-IsNormal, IsValid, IsNormal}
use code_mate.Mcp.Quota.Payload.{
  one, default_threshold, positive_float_or_none, ok, positive_or_none, normalize_limits,
  normalize_policy_payload, Normalized, Payload,
}
use code_mate.Mcp.Quota.Policy.{Policy}
use code_mate.Prelude.{Option, List, refl, arith, false, ◌∷◌, [], none, some, true, String, ◌≡◌}
use code_mate.Mcp.Quota.Examples.{limits, policy, start}

-- What an operator asks for.
abbrev no_change : Payload
no_change = record {
  repo_id = none;
  principal_type = none;
  principal_id = none;
  server_name = none;
  tool_name = none;
  rate_limit_per_minute = none;
  daily_call_limit = none;
  daily_cost_limit = none;
  concurrent_limit = none;
  run_call_limit = none;
  max_run_duration_seconds = none;
  call_cost_units = none;
  warning_threshold = none;
  enabled = none;
  frozen = none;
}

abbrev payload : Payload
payload = record no_change {
  server_name = some (some "ci");
  concurrent_limit = some (some (pos 3));
}

abbrev normal : Normalized
normal = record {
  tenant_id = "t1";
  repo_id = none;
  principal_type = "*";
  principal_id = "*";
  server_name = "ci";
  tool_name = "*";
  limits = record {
    rate_limit_per_minute = none;
    daily_call_limit = none;
    daily_cost_limit = none;
    concurrent_limit = some 3;
    run_call_limit = none;
    max_run_duration_seconds = none;
    call_cost_units = one;
  };
  warning_threshold = default_threshold;
  enabled = true;
  frozen = false;
}

payload_accepted : normalize_policy_payload (pos one) "t1" payload ≡ ok normal
unfolding normalize_policy_payload normalize_limits positive_or_none positive_float_or_none one
    default_threshold
payload_accepted = refl

normalize-IsNormal_example : IsNormal normal
normalize-IsNormal_example = normalize-IsNormal (pos one) "t1" payload normal payload_accepted

abbrev same_digest : List (Option String) → String
same_digest fields = "digest"

abbrev operator : Operator
operator = record {
  default_cost = pos one;
  max_policies = 64;
  now = start;
  actor = "root";
  digest = same_digest;
}

policy-IsValid : IsValid policy
unfolding one default_threshold
policy-IsValid = record {
  valid = record {
    rate = refl;
    calls = refl;
    daily_cost = refl;
    concurrent = refl;
    run_calls = refl;
    duration = refl;
    cost = omega arith;
    threshold_positive = omega arith;
    threshold_bound = omega arith;
  };
  named = record { repo = refl; kind = refl; principal = refl; server = refl; tool = refl };
}

-- The change of the payload, made to the policy.
abbrev changed_policy : Policy
changed_policy = record policy {
  scope_key = "digest";
  limits = record limits { concurrent_limit = some 3 };
  version = 2;
  updated_at = start;
}

update_done : (update_policy operator "p1" payload 1 (policy ∷ [])).0 ≡ done changed_policy
unfolding update_policy find_policy changes_scope normalize_policy_payload normalize_limits
    positive_or_none positive_float_or_none one default_threshold update_payload policy_payload
    write_policy policy_scope_key is_taken
update_done = refl

policy_found : find_policy "p1" (policy ∷ []) ≡ some policy
unfolding find_policy
policy_found = refl

update_keeps_scope_example :
    (policy.version ≡ 1)
    × HasScopeOf policy changed_policy
    × IsValid changed_policy
    × (changed_policy.version ≡ 2)
update_keeps_scope_example =
    update_keeps_scope operator payload policy changed_policy policy-IsValid "p1" 1 (policy ∷ [])
      policy_found update_done

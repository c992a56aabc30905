-- ===== src/Mcp/Quota/Methods.antt =====
-- The methods of an operator: `create_policy`, `update_policy`, `disable_policy`, `reset_policy` and
-- `temporarily_adjust_policy`, on the table of policies, which is kept in the order of its ids. A
-- method that raises leaves the table as it is. `reset_policy` also clears the keys of the policy.
use Prim.Native.String.{compare}
use Prim.Native.Nat.{Ordering}
use text.Mathlib.Text.{◌==◌ as str_eq}
use code_mate.Mcp.Quota.Payload.{
  ok, conflict, Checked, Payload, normalize_policy_payload, Normalized,
}
use code_mate.Json.{ℤ}
use code_mate.Mcp.Quota.Policy.{Policy}
use code_mate.Prelude.{
  suc, max, ◌&&◌, true, leb, not, [], ◌||◌, if◌then◌else◌, false, ◌∷◌, none, Bool, List, some, ℕ,
  Option, String,
}

-- What a method returns, or the error that it raises.
pub data Result : Type 0 where
  done : Policy → Result
  conflict_error : String → Result
  not_found : Result
  redis_unavailable : Result

-- What a method is given beside its arguments: `settings`, the time, who acts, and `policy_scope_key`
-- of the six fields, with json and hashlib.
pub record Operator : Type 0 where
  pub default_cost : ℤ
  pub max_policies : ℕ
  pub now : ℕ
  pub actor : String
  pub digest : List (Option String) → String

unfoldable pub policy_scope_key : Operator → Normalized → String
policy_scope_key op n = op.digest (
    some n.tenant_id
    ∷ n.repo_id
    ∷ some n.principal_type
    ∷ some n.principal_id
    ∷ some n.server_name
    ∷ some n.tool_name
    ∷ [])

unfoldable pub find_policy : String → List Policy → Option Policy
find_policy id [] = none
find_policy id (p ∷ ps) = if str_eq p.id id then some p else find_policy id ps

-- `policy_count`
unfoldable pub policy_count : String → List Policy → ℕ
policy_count tenant_id [] = 0
policy_count tenant_id (p ∷ ps) =
    let rest = policy_count tenant_id ps in
    if str_eq p.tenant_id tenant_id && p.enabled then suc rest else rest

-- The unique constraint on `scope_key`: another row has the key.
unfoldable pub is_taken : String → String → List Policy → Bool
is_taken id scope_key [] = false
is_taken id scope_key (p ∷ ps) =
    not (str_eq p.id id) && str_eq p.scope_key scope_key || is_taken id scope_key ps

unfoldable pub replace_policy : Policy → List Policy → List Policy
replace_policy new [] = []
replace_policy new (p ∷ ps) =
    let rest = replace_policy new ps in if str_eq p.id new.id then new ∷ rest else p ∷ rest

-- The id stands before the other.
abbrev pub is_before : String → String → Bool
is_before a b = elim (compare a b) [ Ordering.lt ↦ true | _ ↦ false ]

-- The new row, in the order of the ids.
unfoldable pub insert_policy : Policy → List Policy → List Policy
insert_policy new [] = new ∷ []
insert_policy new (p ∷ ps) =
    let rest = insert_policy new ps in if is_before new.id p.id then new ∷ p ∷ ps else p ∷ rest

-- `MCPQuotaPolicy(**normalized, …)`
unfoldable pub new_policy : Operator → String → Normalized → Policy
unfolding policy_scope_key
new_policy op id n = record {
  id = id;
  scope_key = policy_scope_key op n;
  tenant_id = n.tenant_id;
  repo_id = n.repo_id;
  principal_type = n.principal_type;
  principal_id = n.principal_id;
  server_name = n.server_name;
  tool_name = n.tool_name;
  limits = n.limits;
  warning_threshold = n.warning_threshold;
  enabled = n.enabled;
  frozen = n.frozen;
  temporary_override_json = none;
  temporary_override_expires_at = none;
  reset_at = none;
  version = 1;
  created_by = op.actor;
  updated_by = op.actor;
  updated_at = op.now;
}

-- `create_policy` on the normalized payload.
abbrev pub create_normalized :
    Operator → String → List Policy → Checked Normalized → Result × List Policy
create_normalized op id ps (conflict text) = (conflict_error text, ps)
create_normalized op id ps (ok n) =
    let new = new_policy op id n in
    if is_taken id new.scope_key ps
    then (conflict_error "A quota policy already exists for this scope", ps)
    else (done new, insert_policy new ps)

-- `id` is fresh.
unfoldable pub create_policy :
    Operator → String → String → Payload → List Policy → Result × List Policy
unfolding policy_count normalize_policy_payload is_taken insert_policy new_policy
create_policy op id tenant_id payload ps =
    if leb (max 1 op.max_policies) (policy_count tenant_id ps)
    then (conflict_error "Tenant quota policy limit reached", ps)
    else create_normalized op id ps (normalize_policy_payload op.default_cost tenant_id payload)

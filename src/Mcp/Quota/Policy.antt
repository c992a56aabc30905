-- ===== src/Mcp/Quota/Policy.antt =====
-- `MCPQuotaPolicy` and which policies a call matches: `_matching_policies`, and the limits that hold
-- at a time: `effective_policy_values`. Where the source has a float, a cost or a threshold is a
-- whole number of 2 ^ -1074, which every finite one is; times are microseconds since the epoch, in UTC.
use text.Mathlib.Text.{◌==◌ as str_eq}
use code_mate.Prelude.{
  ℕ, String, Bool, true, false, ◌&&◌, ◌||◌, Option, none, some, List, [], ◌∷◌, ltb, if◌then◌else◌,
}
use code_mate.Dict.{Dict, lookup}

-- The limits of a policy. None is no limit.
pub record Limits : Type 0 where
  pub rate_limit_per_minute : Option ℕ
  pub daily_call_limit : Option ℕ
  pub daily_cost_limit : Option ℕ
  pub concurrent_limit : Option ℕ
  pub run_call_limit : Option ℕ
  pub max_run_duration_seconds : Option ℕ
  pub call_cost_units : ℕ

pub record Policy : Type 0 where
  pub id : String
  pub scope_key : String
  pub tenant_id : String
  pub repo_id : Option String
  pub principal_type : String
  pub principal_id : String
  pub server_name : String
  pub tool_name : String
  pub limits : Limits
  pub warning_threshold : ℕ
  pub enabled : Bool
  pub frozen : Bool
  pub temporary_override_json : Option (Dict (Option ℕ))
  pub temporary_override_expires_at : Option ℕ
  pub reset_at : Option ℕ
  pub version : ℕ
  pub created_by : String
  pub updated_by : String
  pub updated_at : ℕ

-- `MCPQuotaContext`
pub record Context : Type 0 where
  pub tenant_id : String
  pub repo_id : Option String
  pub run_id : Option String
  pub principal_type : String
  pub principal_id : String
  pub principal_provider : Option String
  pub delegated_identity_id : Option String
  pub run_created_at : Option ℕ

-- `MCPTenantMembership`
pub record Membership : Type 0 where
  pub tenant_id : String
  pub subject : String
  pub provider : String
  pub role : String

-- `time and time > now`
abbrev pub is_later : Option ℕ → ℕ → Bool
is_later none now = false
is_later (some t) now = ltb now t

-- `bool(temporary_override_json)`, with the items
abbrev pub items_of : Option (Dict (Option ℕ)) → Dict (Option ℕ)
items_of none = []
items_of (some d) = d

-- `values.update(overrides)`, at one key: the item that overrides it, if there is one.
abbrev pub override_or : Option (Option ℕ) → Option ℕ → Option ℕ
override_or none value = value
override_or (some v) value = v

-- `values.update(overrides)`. The key `call_cost_units` is never among the overrides, since
-- `temporarily_adjust_policy`, which alone writes them, refuses it.
unfoldable pub update_limits : Dict (Option ℕ) → Limits → Limits
update_limits d l = record {
  rate_limit_per_minute = override_or (lookup "rate_limit_per_minute" d) l.rate_limit_per_minute;
  daily_call_limit = override_or (lookup "daily_call_limit" d) l.daily_call_limit;
  daily_cost_limit = override_or (lookup "daily_cost_limit" d) l.daily_cost_limit;
  concurrent_limit = override_or (lookup "concurrent_limit" d) l.concurrent_limit;
  run_call_limit = override_or (lookup "run_call_limit" d) l.run_call_limit;
  max_run_duration_seconds =
      override_or (lookup "max_run_duration_seconds" d) l.max_run_duration_seconds;
  call_cost_units = l.call_cost_units;
}

unfoldable pub effective_policy_values : Policy → ℕ → Limits
unfolding update_limits
effective_policy_values p now =
    if is_later p.temporary_override_expires_at now
    then update_limits (items_of p.temporary_override_json) p.limits
    else p.limits

-- `repo_id IS NULL OR repo_id = …`; a comparison with None is IS NULL.
abbrev pub is_repo : Option String → Option String → Bool
is_repo none repo = true
is_repo (some r) none = false
is_repo (some r) (some repo) = str_eq r repo

-- `name IN (…, '*')`
abbrev pub is_name_or_any : String → String → Bool
is_name_or_any name wanted = str_eq name wanted || str_eq name "*"

-- The rows of the statement of `_matching_policies`.
abbrev pub is_selected : Context → String → String → Policy → Bool
is_selected context server_name tool_name p =
    str_eq p.tenant_id context.tenant_id
    && p.enabled
    && is_repo p.repo_id context.repo_id
    && is_name_or_any p.server_name server_name
    && is_name_or_any p.tool_name tool_name

-- `provider is None or provider == …`
abbrev pub is_provider : Option String → String → Bool
is_provider none provider = true
is_provider (some p) provider = str_eq provider p

-- The role of the first membership of a user.
unfoldable pub role_of : Context → List Membership → Option String
role_of context [] = none
role_of context (m ∷ ms) =
    let rest = role_of context ms in
    if str_eq m.tenant_id context.tenant_id
      && str_eq m.subject context.principal_id
      && is_provider context.principal_provider m.provider
    then some m.role
    else rest

-- `principals`
unfoldable pub principals : Context → List Membership → List (String × String)
unfolding role_of
principals context members =
    let own = (context.principal_type, context.principal_id) ∷ ("*", "*") ∷ [] in
    if str_eq context.principal_type "user"
    then elim (role_of context members) [ none ↦ own | some role ↦ ("role", role) ∷ own ]
    else own

-- `(principal_type, principal_id) in principals`
unfoldable pub is_principal : Policy → List (String × String) → Bool
is_principal p [] = false
is_principal p ((kind, name) ∷ rest) =
    str_eq p.principal_type kind && str_eq p.principal_id name || is_principal p rest

unfoldable pub filter_matching :
    Context → String → String → List (String × String) → List Policy → List Policy
filter_matching context server_name tool_name who [] = []
filter_matching context server_name tool_name who (p ∷ ps) =
    let rest = filter_matching context server_name tool_name who ps in
    if is_selected context server_name tool_name p && is_principal p who then p ∷ rest else rest

-- `_matching_policies`, of a table in the order of its ids.
unfoldable pub matching_policies :
    Context → String → String → List Membership → List Policy → List Policy
unfolding filter_matching principals
matching_policies context server_name tool_name members policies =
    filter_matching context server_name tool_name (principals context members) policies

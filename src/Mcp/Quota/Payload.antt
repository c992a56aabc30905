-- ===== src/Mcp/Quota/Payload.antt =====
-- `normalize_policy_payload`: what an operator may put into a policy. A payload is what the schemas of
-- backend/app/schemas/mcp_quotas.py dump: a key may be missing, and its value may be None. A float is a whole number of 2 ^ -1074, which
-- every finite one is; NaN and the infinities are left out.
use text.Mathlib.Text.{◌==◌ as str_eq}
use code_mate.Mcp.Quota.Policy.{Limits}
use Prim.Native.Nat.{◌^◌}
use code_mate.Json.{negsuc, pos, ℤ}
use code_mate.Prelude.{
  ◌*◌, zero, leb, ◌&&◌, ltb, none, false, suc, if◌then◌else◌, true, some, Bool, ℕ, String, Option,
}

pub record Payload : Type 0 where
  pub repo_id : Option (Option String)
  pub principal_type : Option (Option String)
  pub principal_id : Option (Option String)
  pub server_name : Option (Option String)
  pub tool_name : Option (Option String)
  pub rate_limit_per_minute : Option (Option ℤ)
  pub daily_call_limit : Option (Option ℤ)
  pub daily_cost_limit : Option (Option ℤ)
  pub concurrent_limit : Option (Option ℤ)
  pub run_call_limit : Option (Option ℤ)
  pub max_run_duration_seconds : Option (Option ℤ)
  pub call_cost_units : Option (Option ℤ)
  pub warning_threshold : Option (Option ℤ)
  pub enabled : Option (Option Bool)
  pub frozen : Option (Option Bool)

-- A value, or `MCPQuotaConflictError` with its text.
pub data Checked {ℓ} (A : Type ℓ) : Type ℓ where
  ok : A → Checked A
  conflict : String → Checked A

infixl 5 ◌>>=◌
abbrev pub ◌>>=◌ {ℓ κ} : {A : Type ℓ} {B : Type κ} → Checked A → (A → Checked B) → Checked B
ok a >>= f = f a
conflict text >>= f = conflict text

-- `payload.get(key)`
abbrev pub get {ℓ} : {A : Type ℓ} → Option (Option A) → Option A
get none = none
get (some v) = v

-- `value or default`, for texts
abbrev pub text_or : Option String → String → String
text_or none d = d
text_or (some s) d = if str_eq s "" then d else s

-- `value or None`
abbrev pub or_none : Option String → Option String
or_none none = none
or_none (some s) = if str_eq s "" then none else some s

-- `positive_or_none`, of an int
unfoldable pub positive_or_none : Option ℤ → Checked (Option ℕ)
positive_or_none none = ok none
positive_or_none (some (pos zero)) = conflict "Quota limits must be greater than 0"
positive_or_none (some (pos (suc n))) = ok (some (suc n))
positive_or_none (some (negsuc n)) = conflict "Quota limits must be greater than 0"

-- `positive_float_or_none`, of a finite float
unfoldable pub positive_float_or_none : Option ℤ → Checked (Option ℕ)
positive_float_or_none none = ok none
positive_float_or_none (some (pos zero)) = conflict "Quota limits must be greater than 0"
positive_float_or_none (some (pos (suc n))) = ok (some (suc n))
positive_float_or_none (some (negsuc n)) = conflict "Quota limits must be greater than 0"

-- `value or default`, for numbers
abbrev pub number_or : Option ℤ → ℤ → ℤ
number_or none d = d
number_or (some (pos zero)) d = d
number_or (some (pos (suc n))) d = pos (suc n)
number_or (some (negsuc n)) d = negsuc n

-- `bool(payload.get(key, default))`
abbrev pub flag_or : Option (Option Bool) → Bool → Bool
flag_or none d = d
flag_or (some none) d = false
flag_or (some (some b)) d = b

-- 1.0 in units of 2 ^ -1074, of which every finite float is a whole number.
unfoldable pub one : ℕ
one = 2 ^ 1074

-- 0.8 as a float
unfoldable pub default_threshold : ℕ
default_threshold = 3602879701896397 * 2 ^ 1022

-- `0 < warning_threshold <= 1`
abbrev pub check_threshold : ℤ → Checked ℕ
check_threshold (pos n) =
    if ltb 0 n && leb n one
    then ok n
    else conflict "warning_threshold must be greater than 0 and at most 1"
check_threshold (negsuc n) = conflict "warning_threshold must be greater than 0 and at most 1"

-- `call_cost_units <= 0`, negated
abbrev pub check_cost : ℤ → Checked ℕ
check_cost (pos zero) = conflict "call_cost_units must be greater than 0"
check_cost (pos (suc n)) = ok (suc n)
check_cost (negsuc n) = conflict "call_cost_units must be greater than 0"

-- What `normalize_policy_payload` returns: the columns that an operator sets.
pub record Normalized : Type 0 where
  pub tenant_id : String
  pub repo_id : Option String
  pub principal_type : String
  pub principal_id : String
  pub server_name : String
  pub tool_name : String
  pub limits : Limits
  pub warning_threshold : ℕ
  pub enabled : Bool
  pub frozen : Bool

unfoldable pub normalize_limits : ℤ → Payload → Checked (Limits × ℕ)
unfolding positive_or_none positive_float_or_none one default_threshold
normalize_limits default_cost p = positive_or_none (get p.rate_limit_per_minute) >>= λ rate.
    positive_or_none (get p.daily_call_limit) >>= λ calls.
    positive_float_or_none (get p.daily_cost_limit) >>= λ daily_cost.
    positive_or_none (get p.concurrent_limit) >>= λ concurrent.
    positive_or_none (get p.run_call_limit) >>= λ run_calls.
    positive_or_none (get p.max_run_duration_seconds) >>= λ duration.
    check_threshold (number_or (get p.warning_threshold) (pos default_threshold)) >>= λ threshold.
    check_cost (number_or (get p.call_cost_units) default_cost) >>= λ cost. ok (
      record {
        rate_limit_per_minute = rate;
        daily_call_limit = calls;
        daily_cost_limit = daily_cost;
        concurrent_limit = concurrent;
        run_call_limit = run_calls;
        max_run_duration_seconds = duration;
        call_cost_units = cost;
      },
      threshold,
    )

-- `default_cost` is `settings.mcp_quota_default_call_cost_units`.
unfoldable pub normalize_policy_payload : ℤ → String → Payload → Checked Normalized
unfolding normalize_limits
normalize_policy_payload default_cost tenant_id p = normalize_limits default_cost p >>= λ checked.
    ok (record {
      tenant_id = tenant_id;
      repo_id = or_none (get p.repo_id);
      principal_type = text_or (get p.principal_type) "*";
      principal_id = text_or (get p.principal_id) "*";
      server_name = text_or (get p.server_name) "*";
      tool_name = text_or (get p.tool_name) "*";
      limits = checked.0;
      warning_threshold = checked.1;
      enabled = flag_or p.enabled true;
      frozen = flag_or p.frozen false;
    })

-- ===== src/Mcp/Quota/Valid.antt =====
-- What an operator's payload can make of a policy.
use text.Mathlib.Text.{◌==◌ as str_eq}
use code_mate.Json.{negsuc, pos, ℤ}
use code_mate.Mcp.Quota.Payload.{
  normalize_policy_payload, get, number_or, Payload, normalize_limits, ◌>>=◌, one,
  default_threshold, positive_float_or_none, text_or, conflict, check_cost, check_threshold, ok,
  or_none, Checked, positive_or_none, Normalized,
}
use code_mate.Mcp.Quota.Policy.{Policy, Limits}
use code_mate.Prelude.{
  subst, ap, inr, inl, Bool-cases, zero, refl, suc, none, ◌≤◌, ltb, arith, false, ◌<◌, some, true,
  Bool, String, ℕ, Option, ◌≡◌,
}

-- None, or positive
abbrev pub is_positive : Option ℕ → Bool
is_positive none = true
is_positive (some n) = ltb 0 n

-- The limits that a policy can have.
pub record AreValid (l : Limits) (threshold : ℕ) : Type 0 where
  pub rate : is_positive l.rate_limit_per_minute ≡ true
  pub calls : is_positive l.daily_call_limit ≡ true
  pub daily_cost : is_positive l.daily_cost_limit ≡ true
  pub concurrent : is_positive l.concurrent_limit ≡ true
  pub run_calls : is_positive l.run_call_limit ≡ true
  pub duration : is_positive l.max_run_duration_seconds ≡ true
  pub cost : 0 < l.call_cost_units
  pub threshold_positive : 0 < threshold
  pub threshold_bound : threshold ≤ one

-- The scope of a policy names what it is about, or says `*`.
pub record IsNamed (repo_id : Option String)
    (principal_type principal_id server_name tool_name : String) : Type 0 where
  pub repo : or_none repo_id ≡ repo_id
  pub kind : str_eq principal_type "" ≡ false
  pub principal : str_eq principal_id "" ≡ false
  pub server : str_eq server_name "" ≡ false
  pub tool : str_eq tool_name "" ≡ false

pub record IsNormal (n : Normalized) : Type 0 where
  pub valid : AreValid n.limits n.warning_threshold
  pub named : IsNamed n.repo_id n.principal_type n.principal_id n.server_name n.tool_name

positive-is_positive :
    (v : Option ℤ) (o : Option ℕ) → positive_or_none v ≡ ok o → is_positive o ≡ true
unfolding positive_or_none
positive-is_positive none o h = ground arith
positive-is_positive (some (pos zero)) o h = ground arith
positive-is_positive (some (pos (suc n))) o h = ground arith
positive-is_positive (some (negsuc n)) o h = ground arith

positive_float-is_positive :
    (v : Option ℤ) (o : Option ℕ) → positive_float_or_none v ≡ ok o → is_positive o ≡ true
unfolding positive_float_or_none
positive_float-is_positive none o h = ground arith
positive_float-is_positive (some (pos zero)) o h = ground arith
positive_float-is_positive (some (pos (suc n))) o h = ground arith
positive_float-is_positive (some (negsuc n)) o h = ground arith

threshold-bounds : (z : ℤ) (n : ℕ) → check_threshold z ≡ ok n → (0 < n) × (n ≤ one)
threshold-bounds (pos m) n h = ground arith
threshold-bounds (negsuc m) n h = ground arith

cost-positive : (z : ℤ) (n : ℕ) → check_cost z ≡ ok n → 0 < n
cost-positive (pos zero) n h = ground arith
cost-positive (pos (suc m)) n h = ground arith
cost-positive (negsuc m) n h = ground arith

-- The end of a chain is reached through the value of its first step.
pub bind-ok {ℓ κ} :
    {A : Type ℓ} {B : Type κ} (m : Checked A) (f : A → Checked B) (b : B)
    → (m >>= f) ≡ ok b
    → (a : A) × (m ≡ ok a) × (f a ≡ ok b)
bind-ok (ok a) f b h = (a, refl, h)
bind-ok (conflict text) f b h = ground arith

abbrev value_or {ℓ} : {A : Type ℓ} → A → Checked A → A
value_or d (ok a) = a
value_or d (conflict text) = d

pub ok-injective {ℓ} : {A : Type ℓ} (a b : A) → ok a ≡ ok b → a ≡ b
ok-injective a b h = ap (value_or a) h

text_or-named : (o : Option String) → str_eq (text_or o "*") "" ≡ false
text_or-named none = refl
text_or-named (some s) = elim (Bool-cases (str_eq s "")) [
  | inl empty ↦ rw empty refl
  | inr named ↦ rw named named
]

or_none-named : (o : Option String) → or_none (or_none o) ≡ or_none o
or_none-named none = refl
or_none-named (some s) = elim (Bool-cases (str_eq s "")) [
  | inl empty ↦ rw empty refl
  | inr named ↦ rw named (rw named refl)
]

-- The limits that pass the checks of a payload.
limits-AreValid :
    (default_cost : ℤ) (p : Payload) (l : Limits) (threshold : ℕ)
    → normalize_limits default_cost p ≡ ok (l, threshold)
    → AreValid l threshold
unfolding normalize_limits
limits-AreValid default_cost p l threshold h =
    let (rate, is_rate, h1) = bind-ok (positive_or_none (get p.rate_limit_per_minute)) _ _ h in
    let (calls, is_calls, h2) = bind-ok (positive_or_none (get p.daily_call_limit)) _ _ h1 in
    let (costs, is_costs, h3) = bind-ok (positive_float_or_none (get p.daily_cost_limit)) _ _ h2 in
    let (leases, is_leases, h4) = bind-ok (positive_or_none (get p.concurrent_limit)) _ _ h3 in
    let (runs, is_runs, h5) = bind-ok (positive_or_none (get p.run_call_limit)) _ _ h4 in
    let (time, is_time, h6) = bind-ok (positive_or_none (get p.max_run_duration_seconds)) _ _ h5 in
    let (warning, is_warning, h7) =
      bind-ok (check_threshold (number_or (get p.warning_threshold) (pos default_threshold))) _ _
        h6 in
    let (cost, is_cost, h8) =
      bind-ok (check_cost (number_or (get p.call_cost_units) default_cost)) _ _ h7 in
    subst (λ q. AreValid q.0 q.1) (ok-injective _ _ h8)
      (record {
        rate = positive-is_positive _ rate is_rate;
        calls = positive-is_positive _ calls is_calls;
        daily_cost = positive_float-is_positive _ costs is_costs;
        concurrent = positive-is_positive _ leases is_leases;
        run_calls = positive-is_positive _ runs is_runs;
        duration = positive-is_positive _ time is_time;
        cost = cost-positive (number_or (get p.call_cost_units) default_cost) cost is_cost;
        threshold_positive =
            (threshold-bounds (number_or (get p.warning_threshold) (pos default_threshold)) warning
              is_warning).0;
        threshold_bound =
            (threshold-bounds (number_or (get p.warning_threshold) (pos default_threshold)) warning
              is_warning).1;
      })

-- The policy that an operator's payload makes has only limits of at least one call or second, no limit
-- on the cost that is not positive, a positive cost for each call and a warning threshold above 0 and
-- at most 1, and it names its principal, server and tool; the conditions are that the payload is
-- accepted and that its floats are finite.
pub normalize-IsNormal :
    (default_cost : ℤ) (tenant_id : String) (p : Payload) (n : Normalized)
    → normalize_policy_payload default_cost tenant_id p ≡ ok n
    → IsNormal n
unfolding normalize_policy_payload
normalize-IsNormal default_cost tenant_id p n h =
    let (checked, is_checked, h1) = bind-ok (normalize_limits default_cost p) _ _ h in
    subst IsNormal (ok-injective _ _ h1) (record {
      valid = limits-AreValid default_cost p checked.0 checked.1 is_checked;
      named = record {
        repo = or_none-named (get p.repo_id);
        kind = text_or-named (get p.principal_type);
        principal = text_or-named (get p.principal_id);
        server = text_or-named (get p.server_name);
        tool = text_or-named (get p.tool_name);
      };
    })

-- A policy as the methods leave it.
pub record IsValid (p : Policy) : Type 0 where
  pub valid : AreValid p.limits p.warning_threshold
  pub named : IsNamed p.repo_id p.principal_type p.principal_id p.server_name p.tool_name

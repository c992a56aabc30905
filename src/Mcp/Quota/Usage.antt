-- ===== src/Mcp/Quota/Usage.antt =====
-- What a policy has been used for: `_policy_usage` on the tables of events and charges.
use text.Mathlib.Text.{◌==◌ as str_eq}
use Prim.Native.Nat.{◌/◌, ◌%◌}
use code_mate.Prelude.{
  ℕ, suc, ◌+◌, ◌-◌, String, Bool, true, false, not, ◌&&◌, Option, none, some, List, [], ◌∷◌, max,
  min, leb, if◌then◌else◌,
}
use code_mate.Lists.{member}
use code_mate.Mcp.Quota.Policy.{Policy, is_later}

pub record Event : Type 0 where
  pub id : String
  pub idempotency_key : String
  pub execution_id : Option String
  pub tenant_id : String
  pub repo_id : Option String
  pub run_id : Option String
  pub delegated_identity_id : Option String
  pub principal_type : String
  pub principal_id : String
  pub server_name : String
  pub tool_name : String
  pub cost_units : ℕ
  pub status : String
  pub lease_token : Option String
  pub lease_expires_at : Option ℕ
  pub released_at : Option ℕ
  pub created_at : ℕ
  pub updated_at : ℕ

pub record Charge : Type 0 where
  pub event_id : String
  pub policy_id : String
  pub calls : ℕ
  pub cost_units : ℕ
  pub created_at : ℕ

pub record Rejection : Type 0 where
  pub policy_id : Option String
  pub tenant_id : String
  pub repo_id : Option String
  pub run_id : Option String
  pub principal_type : String
  pub principal_id : String
  pub server_name : String
  pub tool_name : String
  pub reason : String
  pub retry_after_seconds : Option ℕ
  pub detail : String
  pub source : Option String
  pub created_at : ℕ

pub record Database : Type 0 where
  pub events : List Event
  pub charges : List Charge
  pub rejections : List Rejection

abbrev pub second : ℕ
second = 1000000

abbrev pub minute : ℕ
minute = 60000000

abbrev pub day : ℕ
day = 86400000000

-- `math.ceil(duration.total_seconds())`
abbrev pub ceil_seconds : ℕ → ℕ
ceil_seconds d = (d + 999999) / second

-- `now.replace(hour=0, minute=0, second=0, microsecond=0)`
abbrev pub start_of_day : ℕ → ℕ
start_of_day now = now - now % day

abbrev pub seconds_until_tomorrow : ℕ → ℕ
seconds_until_tomorrow now = max 1 (ceil_seconds (start_of_day (now + day) - now))

abbrev pub max_datetime : ℕ → Option ℕ → ℕ
max_datetime first none = first
max_datetime first (some second) = max first second

-- `db.get(MCPQuotaEvent, id)`
unfoldable pub find_event : String → List Event → Option Event
find_event id [] = none
find_event id (e ∷ es) = if str_eq e.id id then some e else find_event id es

-- `created_at >= reset_at`, where there is one
abbrev pub is_since : Option ℕ → ℕ → Bool
is_since none t = true
is_since (some reset) t = leb reset t

-- The rows of `base`.
abbrev pub is_charged : Policy → Charge → Bool
is_charged p c = str_eq c.policy_id p.id && is_since p.reset_at c.created_at

abbrev pub calls_of : Charge → ℕ
calls_of c = c.calls

abbrev pub cost_of : Charge → ℕ
cost_of c = c.cost_units

-- A charge as the join with the events counts it.
abbrev pub counted : (Charge → ℕ) → (Charge → Event → Bool) → Charge → Option Event → ℕ
counted value test c none = 0
counted value test c (some e) = if test c e then value c else 0

-- `_sum_calls` and `_sum_cost` of the charges that pass the test.
unfoldable pub sum_of : (Charge → ℕ) → (Charge → Event → Bool) → List Event → List Charge → ℕ
sum_of value test events [] = 0
sum_of value test events (c ∷ cs) =
    counted value test c (find_event c.event_id events) + sum_of value test events cs

-- `created_at >= cutoff`
abbrev pub is_recent : Policy → ℕ → Charge → Event → Bool
is_recent p cutoff c e = is_charged p c && leb cutoff c.created_at

-- `run_id == …`
abbrev pub is_run : Option String → String → Bool
is_run none run = false
is_run (some r) run = str_eq r run

abbrev pub is_of_run : Policy → String → Charge → Event → Bool
is_of_run p run c e = is_charged p c && is_run e.run_id run

-- `if run_id: …`
abbrev pub run_calls_of : Policy → Option String → List Event → List Charge → ℕ
run_calls_of p none events charges = 0
run_calls_of p (some run) events charges =
    if str_eq run "" then 0 else sum_of calls_of (is_of_run p run) events charges

-- `id != exclude_event_id`, where there is one
abbrev pub is_excluded : Option String → String → Bool
is_excluded none id = false
is_excluded (some e) id = not (str_eq e "") && str_eq id e

-- The rows of `active`.
abbrev pub is_active : Policy → ℕ → Option String → Charge → Event → Bool
is_active p now exclude c e =
    is_charged p c && is_later e.lease_expires_at now && not (is_excluded exclude e.id)

abbrev pub with_event : (Charge → Event → Bool) → Charge → Option Event → List Event → List Event
with_event test c none rest = rest
with_event test c (some e) rest = if test c e then e ∷ rest else rest

-- `active_events`
unfoldable pub events_of : (Charge → Event → Bool) → List Event → List Charge → List Event
events_of test events [] = []
events_of test events (c ∷ cs) =
    with_event test c (find_event c.event_id events) (events_of test events cs)

unfoldable pub ids : List Event → List String
ids [] = []
ids (e ∷ es) = e.id ∷ ids es

-- `len({…})`
unfoldable pub count_distinct : List String → ℕ
unfolding member
count_distinct [] = 0
count_distinct (x ∷ xs) = if member x xs then count_distinct xs else suc (count_distinct xs)

abbrev pub min_expiry : Option ℕ → Option ℕ → Option ℕ
min_expiry none rest = rest
min_expiry (some t) none = some t
min_expiry (some t) (some u) = some (min t u)

-- `min(expiries)`, where there are any
unfoldable pub first_expiry : List Event → Option ℕ
first_expiry [] = none
first_expiry (e ∷ es) = min_expiry e.lease_expires_at (first_expiry es)

abbrev pub retry_after_of : ℕ → Option ℕ → Option ℕ
retry_after_of now none = none
retry_after_of now (some t) = some (max 1 (ceil_seconds (t - now)))

pub record Usage : Type 0 where
  pub minute_calls : ℕ
  pub daily_calls : ℕ
  pub daily_cost : ℕ
  pub run_calls : ℕ
  pub active_concurrency : ℕ
  pub concurrency_retry_after : Option ℕ

unfoldable pub policy_usage :
    Policy → ℕ → Option String → Option String → List Event → List Charge → Usage
unfolding sum_of events_of ids count_distinct first_expiry
policy_usage p now run_id exclude events charges =
    let minute_cutoff = max_datetime (now - minute) p.reset_at in
    let day_cutoff = max_datetime (start_of_day now) p.reset_at in
    let active_events = events_of (is_active p now exclude) events charges in
    record {
      minute_calls = sum_of calls_of (is_recent p minute_cutoff) events charges;
      daily_calls = sum_of calls_of (is_recent p day_cutoff) events charges;
      daily_cost = sum_of cost_of (is_recent p day_cutoff) events charges;
      run_calls = run_calls_of p run_id events charges;
      active_concurrency = count_distinct (ids active_events);
      concurrency_retry_after = retry_after_of now (first_expiry active_events);
    }

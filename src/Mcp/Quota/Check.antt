-- ===== src/Mcp/Quota/Check.antt =====
-- `_check_policy`: the first limit of a policy that a call would pass.
use code_mate.Prelude.{
  ℕ, ◌+◌, ◌*◌, String, Bool, false, Option, none, some, List, [], ◌∷◌, ltb, leb, is_some,
  if◌then◌else◌,
}
use code_mate.Mcp.Quota.Policy.{Policy, Limits, Context, effective_policy_values}
use code_mate.Mcp.Quota.Usage.{Event, Usage, Database, second, seconds_until_tomorrow, policy_usage}

-- Why a call is rejected, and `retry_after_seconds`.
pub record Denial : Type 0 where
  pub reason : String
  pub retry_after_seconds : Option ℕ

-- `limit is not None and proposed > limit`
abbrev pub exceeds : Option ℕ → ℕ → Bool
exceeds none proposed = false
exceeds (some limit) proposed = ltb limit proposed

abbrev pub denied : String → Option ℕ → Option Denial
denied reason retry = some (record { reason = reason; retry_after_seconds = retry })

-- One turn of the loop over `checks`: what the later checks say, unless this one is exceeded.
abbrev pub or_denied : Bool → String → Option ℕ → Option Denial → Option Denial
or_denied is_over reason retry later = if is_over then denied reason retry else later

-- `max_run_duration_seconds`
abbrev pub is_overdue : Option ℕ → Option ℕ → ℕ → Bool
is_overdue none started now = false
is_overdue (some limit) none now = false
is_overdue (some limit) (some started) now = leb (limit * second + started) now

-- The loop over `checks`, for a call that has not been counted.
unfoldable pub check_counts : Limits → Usage → ℕ → ℕ → Option Denial → Option Denial
check_counts l u now cost later =
    or_denied (exceeds l.rate_limit_per_minute (u.minute_calls + 1)) "rate_limit_per_minute"
      (some 60)
      (or_denied (exceeds l.daily_call_limit (u.daily_calls + 1)) "daily_call_limit"
        (some (seconds_until_tomorrow now))
        (or_denied (exceeds l.daily_cost_limit (u.daily_cost + cost)) "daily_cost_limit"
          (some (seconds_until_tomorrow now))
          (or_denied (exceeds l.run_call_limit (u.run_calls + 1)) "run_call_limit" none later)))

abbrev pub event_id : Option Event → Option String
event_id none = none
event_id (some e) = some e.id

-- `_check_policy` after its first two tests.
unfoldable pub check_usage : Limits → Usage → ℕ → ℕ → Bool → Option Denial
unfolding check_counts
check_usage l u now cost is_known =
    let concurrency =
      or_denied (exceeds l.concurrent_limit (u.active_concurrency + 1)) "concurrent_limit"
        u.concurrency_retry_after none in
    if is_known then concurrency else check_counts l u now cost concurrency

unfoldable pub check_policy : Policy → Context → ℕ → ℕ → Option Event → Database → Option Denial
unfolding effective_policy_values policy_usage check_usage
check_policy p context now cost existing db =
    let l = effective_policy_values p now in
    let u = policy_usage p now context.run_id (event_id existing) db.events db.charges in
    or_denied p.frozen "tenant_frozen" none (
      or_denied (is_overdue l.max_run_duration_seconds context.run_created_at now)
        "run_duration_limit" none (check_usage l u now cost (is_some existing)))

-- The loop over the policies: the first that denies the call.
unfoldable pub check_policies :
    List Policy → Context → ℕ → ℕ → Option Event → Database → Option (Policy × Denial)
unfolding check_policy
check_policies [] context now cost existing db = none
check_policies (p ∷ ps) context now cost existing db =
    elim (check_policy p context now cost existing db) [
      | some d ↦ some (p, d)
      | none ↦ check_policies ps context now cost existing db
    ]

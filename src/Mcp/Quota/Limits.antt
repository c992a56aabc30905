-- ===== src/Mcp/Quota/Limits.antt =====
-- An accepted call leaves the usage of every policy that it matches within its limits.
use text.Mathlib.Text.{◌==◌ as str_eq}
use code_mate.Prelude.{
  ◌-◌, suc, ℕ, ◌+◌, ◌≤◌, ◌≡◌, refl, String, Bool, true, false, Option, none, some, List, [], ◌∷◌,
  arith,
}
use code_mate.Lists.{All}
use code_mate.Mcp.Quota.Policy.{Policy, Limits, Context, effective_policy_values}
use code_mate.Mcp.Quota.Usage.{
  cost_of, start_of_day, minute, max_datetime, is_active, is_recent, events_of, is_of_run, ids,
  calls_of, Rejection, count_distinct, run_calls_of, Event, Charge, Database, Usage, policy_usage,
  sum_of,
}
use code_mate.Mcp.Quota.Check.{exceeds, check_policy, check_policies, check_usage, check_counts}
use code_mate.Mcp.Quota.Booking.{charge_of, Call, add_charges}
use code_mate.Mcp.Quota.Sums.{
  events-new_event, count-add_charges, AreDistinct, IsUnused, sum-new_event, sum-add_charges,
}

-- No more events hold a lease under the policy than its limit.
abbrev pub IsConcurrent : ℕ → Option String → Database → Policy → Type 0
IsConcurrent now run_id db p =
    exceeds (effective_policy_values p now).concurrent_limit
      (policy_usage p now run_id none db.events db.charges).active_concurrency
    ≡ false

-- What the tables count for the policy is within each of its limits.
abbrev pub IsWithin : ℕ → Option String → Database → Policy → Type 0
IsWithin now run_id db p =
    let l = effective_policy_values p now in
    let u = policy_usage p now run_id none db.events db.charges in
    (exceeds l.rate_limit_per_minute u.minute_calls ≡ false)
    × (exceeds l.daily_call_limit u.daily_calls ≡ false)
    × (exceeds l.daily_cost_limit u.daily_cost ≡ false)
    × (exceeds l.run_call_limit u.run_calls ≡ false)
    × IsConcurrent now run_id db p

pub exceeds-le : (l : Option ℕ) (m n : ℕ) → m ≤ n → exceeds l n ≡ false → exceeds l m ≡ false
exceeds-le none m n h e = refl
exceeds-le (some limit) m n h e = ground arith

-- What it means that `_check_policy` lets a new call pass.
check-counts :
    (l : Limits) (u : Usage) (now cost : ℕ)
    → check_usage l u now cost false ≡ none
    → (exceeds l.rate_limit_per_minute (u.minute_calls + 1) ≡ false)
      × (exceeds l.daily_call_limit (u.daily_calls + 1) ≡ false)
      × (exceeds l.daily_cost_limit (u.daily_cost + cost) ≡ false)
      × (exceeds l.run_call_limit (u.run_calls + 1) ≡ false)
      × (exceeds l.concurrent_limit (u.active_concurrency + 1) ≡ false)
unfolding check_usage check_counts
check-counts l u now cost h = ground arith

check-usage :
    (p : Policy) (context : Context) (now cost : ℕ) (db : Database)
    → check_policy p context now cost none db ≡ none
    → check_usage
        (effective_policy_values p now)
        (policy_usage p now context.run_id none db.events db.charges)
        now
        cost
        false
      ≡ none
unfolding check_policy
check-usage p context now cost db h = ground arith

pub check-All :
    (ps : List Policy) (context : Context) (now cost : ℕ) (existing : Option Event) (db : Database)
    → check_policies ps context now cost existing db ≡ none
    → All (λ p. check_policy p context now cost existing db ≡ none) ps
unfolding check_policies
check-All [] context now cost existing db h = tt
check-All (p ∷ ps) context now cost existing db h =
    (ground arith, check-All ps context now cost existing db (ground arith))

module _ (call : Call) (cost : ℕ) (p : Policy) (ps : List Policy) (d : AreDistinct ps) (e : Event)
    (events : List Event) (charges : List Charge) (u : IsUnused e.id charges) where
  sum-book :
      (value : Charge → ℕ) (v : ℕ) (test : Charge → Event → Bool)
      → ((c : Charge) (f : Event) → test c f ≡ true → str_eq c.policy_id p.id ≡ true)
      → ((q : Policy) → value (charge_of call cost q) ≡ v)
      → sum_of value test (e ∷ events) (add_charges call cost ps charges)
        ≤ sum_of value test events charges + v
  sum-book value v test of worth = ground (
    arith,
    sum-add_charges call cost p test of (e ∷ events) charges value v ps worth d,
    sum-new_event value test e events charges u,
  )

  run_calls-book :
      (run_id : Option String)
      → run_calls_of p run_id (e ∷ events) (add_charges call cost ps charges)
        ≤ run_calls_of p run_id events charges + 1
  run_calls-book none = omega arith
  run_calls-book (some run) =
      ground (arith, sum-book calls_of 1 (is_of_run p run) (λ c f h. ground arith) (λ q. refl))

  active-book :
      (now : ℕ)
      → count_distinct
          (ids (events_of (is_active p now none) (e ∷ events) (add_charges call cost ps charges)))
        ≤ suc (count_distinct (ids (events_of (is_active p now none) events charges)))
  active-book now = ground (
    arith,
    count-add_charges call cost p (is_active p now none) (λ c f h. ground arith) (e ∷ events)
        charges ps d,
    events-new_event (is_active p now none) e events charges u,
  )

  -- A call that passes the checks of a policy is within its limits when it has been booked.
  pub book-IsWithin :
      (context : Context) (now : ℕ) (rejections : List Rejection)
      → check_policy p context now cost none
          (record { events = events; charges = charges; rejections = rejections })
        ≡ none
      → IsWithin now context.run_id
          (record {
            events = e ∷ events;
            charges = add_charges call cost ps charges;
            rejections = rejections;
          })
          p
  unfolding policy_usage
  book-IsWithin context now rejections h =
      let db : Database = record { events = events; charges = charges; rejections = rejections } in
      let l = effective_policy_values p now in
      let (per_minute, per_day, costs, per_run, at_once) =
        check-counts l (policy_usage p now context.run_id none events charges) now cost
          (check-usage p context now cost db h) in
      (
        exceeds-le l.rate_limit_per_minute _ _
            (sum-book calls_of 1 (is_recent p (max_datetime (now - minute) p.reset_at))
              (λ c f h. ground arith) (λ q. refl))
            per_minute,
        exceeds-le l.daily_call_limit _ _
            (sum-book calls_of 1 (is_recent p (max_datetime (start_of_day now) p.reset_at))
              (λ c f h. ground arith) (λ q. refl))
            per_day,
        exceeds-le l.daily_cost_limit _ _
            (sum-book cost_of cost (is_recent p (max_datetime (start_of_day now) p.reset_at))
              (λ c f h. ground arith) (λ q. refl))
            costs,
        exceeds-le l.run_call_limit _ _ (run_calls-book context.run_id) per_run,
        exceeds-le l.concurrent_limit _ _ (ground (arith, active-book now)) at_once,
      )

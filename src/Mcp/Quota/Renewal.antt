-- ===== src/Mcp/Quota/Renewal.antt =====
-- A call whose event exists already is one more lease under each policy, at most.
use code_mate.Mcp.Quota.Limits.{exceeds-le, IsConcurrent}
use code_mate.Mcp.Quota.Check.{exceeds, check_usage, check_policy}
use text.Mathlib.Text.{◌==◌ as str_eq}
use text.Mathlib.TextEquality.{eq_iff}
use code_mate.Prelude.{◌+◌, ℕ, ◌≡◌, refl, true, false, Option, none, some, List, [], ◌∷◌, arith}
use code_mate.Mcp.Quota.Policy.{effective_policy_values, Context, Policy}
use code_mate.Mcp.Quota.Usage.{
  Database, policy_usage, Event, Charge, events_of, is_active, ids, with_event, find_event,
}
use code_mate.Mcp.Quota.Booking.{replace_event}
use code_mate.Mcp.Quota.Sums.{count-without, without, replaced, find-replace}

module _ (p : Policy) (now : ℕ) (e new : Event) (same : str_eq new.id e.id ≡ true)
    (named : str_eq e.id "" ≡ false) where
  without-with_event :
      (c : Charge) (o : Option Event) (rest rest' : List Event)
      → without e.id (ids rest) ≡ ids rest'
      → without e.id (ids (with_event (is_active p now none) c (replaced new o) rest))
        ≡ ids (with_event (is_active p now (some e.id)) c o rest')
  unfolding without ids
  without-with_event c none rest rest' h = h
  without-with_event c (some f) rest rest' h = ground (
    arith,
    h,
    same,
    named,
    eq_iff new.id e.id,
    eq_iff f.id new.id,
    eq_iff f.id e.id,
    eq_iff e.id f.id,
    eq_iff e.id new.id,
  )

  -- An event that is leased again is the only one that its policies count more than before.
  without-renewed :
      (es : List Event) (cs : List Charge)
      → without e.id (ids (events_of (is_active p now none) (replace_event new es) cs))
        ≡ ids (events_of (is_active p now (some e.id)) es cs)
  unfolding events_of without ids
  without-renewed es [] = refl
  without-renewed es (c ∷ cs) = rw (find-replace new c.event_id es) (
      without-with_event c (find_event c.event_id es)
        (events_of (is_active p now none) (replace_event new es) cs)
        (events_of (is_active p now (some e.id)) es cs) (without-renewed es cs))

check-concurrency :
    (p : Policy) (context : Context) (now cost : ℕ) (e : Event) (db : Database)
    → check_policy p context now cost (some e) db ≡ none
    → exceeds (effective_policy_values p now).concurrent_limit (
        (policy_usage p now context.run_id (some e.id) db.events db.charges).active_concurrency + 1)
      ≡ false
unfolding check_policy check_usage
check-concurrency p context now cost e db h = ground arith

pub renewed-IsConcurrent :
    (p : Policy) (context : Context) (now cost : ℕ) (e new : Event) (db : Database)
    → str_eq new.id e.id ≡ true
    → str_eq e.id "" ≡ false
    → check_policy p context now cost (some e) db ≡ none
    → IsConcurrent now context.run_id (record db { events = replace_event new db.events }) p
unfolding policy_usage
renewed-IsConcurrent p context now cost e new db same named h =
    exceeds-le (effective_policy_values p now).concurrent_limit _ _
      (ground (
        arith,
        without-renewed p now e new same named db.events db.charges,
        count-without e.id
            (ids (events_of (is_active p now none) (replace_event new db.events) db.charges)),
      ))
      (check-concurrency p context now cost e db h)

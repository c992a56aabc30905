-- ===== src/Mcp/Quota/Retention.antt =====
-- What the retention deletes is nothing that a limit of the minute, of the day or of the concurrency
-- still counts.
use text.Mathlib.TextEquality.{eq_iff}
use code_mate.Mcp.Quota.Policy.{is_later, Policy}
use text.Mathlib.Text.{◌==◌ as str_eq}
use code_mate.Mcp.Quota.Keys.{IsUnique, IsFound}
use code_mate.Lists.{All-map, All, member}
use code_mate.Mcp.Quota.Purge.{
  purge_usage, is_unleased, is_purged, purge_cutoff, delete_charges, purged_ids, delete_events,
}
use code_mate.Mcp.Quota.Usage.{
  ids, count_distinct, cost_of, calls_of, minute, policy_usage, start_of_day, max_datetime,
  is_recent, day, is_active, Database, with_event, counted, events_of, sum_of, Charge, find_event,
  Event,
}
use native.Mathlib.Nat.{mod-lt}
use code_mate.Prelude.{
  ap, ◌-◌, ◌+◌, refl, sym, none, [], ◌∙◌, inr, inl, arith, ◌∷◌, Bool-cases, ◌≤◌, some, true, false,
  Option, String, Bool, ℕ, List, ◌≡◌,
}

module _ (test : Event → Bool) where
  purged-absent :
      (id : String) (es : List Event)
      → All (λ g. str_eq g.id id ≡ true → test g ≡ false) es
      → member id (purged_ids test es) ≡ false
  unfolding member purged_ids
  purged-absent id [] h = refl
  purged-absent id (e ∷ es) (h, hs) = ground (arith, h, purged-absent id es hs)

  -- An event whose id is deleted passes the test.
  purged-test :
      (id : String) (es : List Event) (e : Event)
      → All (IsFound es) es
      → find_event id es ≡ some e
      → member id (purged_ids test es) ≡ true
      → test e ≡ true
  purged-test id es e keyed found deleted = elim (Bool-cases (test e)) [
    | inl passes ↦ passes
    | inr fails ↦ ground (
      arith,
      deleted,
      purged-absent id es (
          All-map (IsFound es) (λ g. str_eq g.id id ≡ true → test g ≡ false) es
            (λ g h. λ same. ground (arith, h, found, fails, (eq_iff g.id id).0 same)) keyed),
    )
  ]

find-delete :
    (ids : List String) (id : String) (es : List Event)
    → member id ids ≡ false
    → find_event id (delete_events ids es) ≡ find_event id es
unfolding find_event delete_events
find-delete ids id [] kept = refl
find-delete ids id (e ∷ es) kept = ground (arith, find-delete ids id es kept, eq_iff e.id id)

-- A charge that is deleted is none that the test counts.
abbrev IsQuiet : List String → List Event → (Charge → Event → Bool) → Charge → Type 0
IsQuiet ids es test ch =
    member ch.event_id ids ≡ true
    → (e : Event) → find_event ch.event_id es ≡ some e
    → test ch e ≡ false

quiet-counted :
    (value : Charge → ℕ) (test : Charge → Event → Bool) (ch : Charge) (o : Option Event)
    → ((e : Event) → o ≡ some e → test ch e ≡ false)
    → counted value test ch o ≡ 0
quiet-counted value test ch none quiet = refl
quiet-counted value test ch (some e) quiet = ground (arith, quiet e refl)

quiet-with_event :
    (test : Charge → Event → Bool) (ch : Charge) (o : Option Event) (rest : List Event)
    → ((e : Event) → o ≡ some e → test ch e ≡ false)
    → with_event test ch o rest ≡ rest
quiet-with_event test ch none rest quiet = refl
quiet-with_event test ch (some e) rest quiet = ground (arith, quiet e refl)

module _ (ids : List String) (test : Charge → Event → Bool) (es : List Event) where
  sum-delete :
      (value : Charge → ℕ) (chs : List Charge)
      → All (IsQuiet ids es test) chs
      → sum_of value test (delete_events ids es) (delete_charges ids chs) ≡ sum_of value test es chs
  unfolding sum_of delete_charges
  sum-delete value [] quiet = refl
  sum-delete value (ch ∷ chs) (h, quiet) = elim (Bool-cases (member ch.event_id ids)) [
    | inl deleted ↦ ground (
      arith,
      deleted,
      sum-delete value chs quiet,
      quiet-counted value test ch (find_event ch.event_id es) (h deleted),
    )
    | inr kept ↦ rw kept (rw (find-delete ids ch.event_id es kept, sum-delete value chs quiet) refl)
  ]

  events-delete :
      (chs : List Charge)
      → All (IsQuiet ids es test) chs
      → events_of test (delete_events ids es) (delete_charges ids chs) ≡ events_of test es chs
  unfolding events_of delete_charges
  events-delete [] quiet = refl
  events-delete (ch ∷ chs) (h, quiet) = elim (Bool-cases (member ch.event_id ids)) [
    | inl deleted ↦ rw deleted (
        events-delete chs quiet
        ∙ sym (
            quiet-with_event test ch (find_event ch.event_id es) (events_of test es chs)
              (h deleted)))
    | inr kept ↦ rw kept (rw (find-delete ids ch.event_id es kept, events-delete chs quiet) refl)
  ]

unleased-later :
    (o : Option ℕ) (now later : ℕ)
    → now ≤ later
    → is_unleased o now ≡ true
    → is_later o later ≡ false
unleased-later none now later order h = refl
unleased-later (some t) now later order h = ground arith

le-max_datetime : (m n : ℕ) (reset : Option ℕ) → m ≤ n → m ≤ max_datetime n reset
le-max_datetime m n none h = h
le-max_datetime m n (some reset) h = ground arith

le-start_of_day : (now : ℕ) → now - day ≤ start_of_day now
le-start_of_day now = ground (arith, mod-lt now {m = day} (omega arith))

-- The charge was inserted at most a day after its event.
abbrev pub IsPrompt : List Event → Charge → Type 0
IsPrompt es ch =
    (e : Event) → find_event ch.event_id es ≡ some e → ch.created_at ≤ e.created_at + day

module _ (setting : ℕ) (tenant_id : String) (retention_days : Option ℕ) (now later : ℕ)
    (order : now ≤ later) (p : Policy) (db : Database) (unique : IsUnique db)
    (prompt : All (IsPrompt db.events) db.charges) where
  recent-IsQuiet :
      (cutoff : ℕ)
      → later - day ≤ cutoff
      → All
          (IsQuiet
            (purged_ids
              (is_purged tenant_id (purge_cutoff setting retention_days now) now)
              db.events)
            db.events
            (is_recent p cutoff))
          db.charges
  unfolding purge_cutoff
  recent-IsQuiet cutoff late =
      All-map _ _ db.charges
        (λ ch soon. λ deleted e found. ground (
          arith,
          late,
          order,
          soon e found,
          purged-test (is_purged tenant_id (purge_cutoff setting retention_days now) now)
              ch.event_id db.events e unique.keyed found deleted,
        ))
        prompt

  active-IsQuiet :
      All
        (IsQuiet
          (purged_ids (is_purged tenant_id (purge_cutoff setting retention_days now) now) db.events)
          db.events
          (is_active p later none))
        db.charges
  active-IsQuiet =
      All-map _ _ db.charges
        (λ ch soon. λ deleted e found. ground (
          arith,
          unleased-later e.lease_expires_at now later order,
          purged-test (is_purged tenant_id (purge_cutoff setting retention_days now) now)
              ch.event_id db.events e unique.keyed found deleted,
        ))
        prompt

  -- A purge of the tables, at any retention, changes nothing that the limits count at that time or
  -- later: for every policy the calls of the last minute, the calls and the cost of the day and the
  -- number of leases stay the same; the tables keep their unique constraints and the foreign key
  -- of the charges, and each charge was inserted at most a day after its event, in whose transaction
  -- it is.
  pub purge_keeps_usage :
      (dry_run : Bool) (run_id : Option String)
      → let after = (purge_usage setting tenant_id retention_days dry_run now db).1 in
        let old_usage = policy_usage p later run_id none db.events db.charges in
        let new_usage = policy_usage p later run_id none after.events after.charges in
        (new_usage.minute_calls ≡ old_usage.minute_calls)
        × (new_usage.daily_calls ≡ old_usage.daily_calls)
        × (new_usage.daily_cost ≡ old_usage.daily_cost)
        × (new_usage.active_concurrency ≡ old_usage.active_concurrency)
  unfolding purge_usage policy_usage
  purge_keeps_usage true run_id = (refl, refl, refl, refl)
  purge_keeps_usage false run_id =
      let old =
        purged_ids (is_purged tenant_id (purge_cutoff setting retention_days now) now) db.events in
      let per_minute =
        recent-IsQuiet (max_datetime (later - minute) p.reset_at)
          (le-max_datetime (later - day) (later - minute) p.reset_at (omega arith)) in
      let per_day =
        recent-IsQuiet (max_datetime (start_of_day later) p.reset_at)
          (le-max_datetime (later - day) (start_of_day later) p.reset_at (le-start_of_day later)) in
      (
        sum-delete old _ db.events calls_of db.charges per_minute,
        sum-delete old _ db.events calls_of db.charges per_day,
        sum-delete old _ db.events cost_of db.charges per_day,
        ap (λ es. count_distinct (ids es))
            (events-delete old _ db.events db.charges active-IsQuiet),
      )

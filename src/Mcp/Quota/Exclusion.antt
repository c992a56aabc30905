-- ===== src/Mcp/Quota/Exclusion.antt =====
-- Once a call of `reserve` is accepted, its idempotency key is not leased again until it may be.
use text.Mathlib.TextPositions.{eq_refl}
use code_mate.Mcp.Quota.Reserve.{reserve}
use code_mate.Mcp.Quota.Cases.{is_held, reserve-Ends}
use code_mate.Mcp.Quota.Policy.{Membership, Policy}
use code_mate.Mcp.Quota.Unique.{step-IsUnique, IsFresh}
use code_mate.Mcp.Quota.Accepted.{find_key-All}
use code_mate.Mcp.Quota.Booking.{
  Result, reserved, book, Reservation, Call, new_event, World, lease_event, find_key,
}
use code_mate.Mcp.Quota.Keys.{find_key-same, IsFound, IsUnique}
use code_mate.Mcp.Quota.Steps.{run, step, reserves, Step}
use code_mate.Mcp.Quota.Usage.{Event, Database}
use code_mate.Mcp.Quota.RedisReserve.{lease_end, Outside, Settings}
use code_mate.Prelude.{
  Bool, refl, none, ◌∙◌, sym, ap, Option, List, arith, true, false, some, ◌<◌, ℕ, String, ◌≡◌,
}
use code_mate.Mcp.Quota.Lease.{HasLease, AreWithinLease, run-HasLease}

-- The result is a reservation that holds a lease.
abbrev pub grants : Result → Bool
grants (reserved r) = r.enabled
grants x = false

module _ (c : Settings) (o : Outside) (key token : String) (until : ℕ) where
  leased-refused :
      (policies : List Policy) (members : List Membership) (again : Call) (w : World)
      → again.idempotency_key ≡ key
      → again.now < until
      → HasLease key token until w.database
      → grants (reserve c o policies members again w).0 ≡ false
  leased-refused policies members again w same early (e, by_key, held, expires) =
      reserve-Ends c o again w (λ x db. grants x ≡ false) policies members
        (record {
          disabled = refl;
          conflicts = λ text. refl;
          fails = λ text. refl;
          rejected = λ x y. refl;
          booked = λ cost existing found idle fits. ground (
            arith,
            ap (is_held again.now)
                (sym found ∙ ap (λ k. find_key k w.database.events) same ∙ by_key),
          );
        })

module _ (c : Settings) (o : Outside) where
  booked-HasLease :
      (cost : ℕ) (ps : List Policy) (call : Call) (existing : Option Event) (db : Database)
      → IsUnique db
      → find_key call.idempotency_key db.events ≡ existing
      → HasLease call.idempotency_key call.fresh_token
          (lease_end c call.now)
          (book c call cost ps existing db)
  unfolding find_key lease_event new_event
  booked-HasLease cost ps call none db unique found = (
    lease_event c call (new_event call cost),
    ground (arith, eq_refl call.idempotency_key),
    refl,
    refl,
  )
  booked-HasLease cost ps call (some f) db unique found =
      let f_found =
        find_key-All (IsFound db.events) call.idempotency_key db.events f unique.keyed found in
      (
        lease_event c call f,
        rw
            (find_key-same f (lease_event c call f) db.events unique.keyed f_found refl refl
              call.idempotency_key)
            (ground (arith, found, eq_refl f.id)),
        refl,
        refl,
      )

  -- What an accepted call holds.
  accepted-HasLease :
      (policies : List Policy) (members : List Membership) (call : Call) (r : Reservation)
      (w : World)
      → IsUnique w.database
      → (reserve c o policies members call w).0 ≡ reserved r
      → r.enabled ≡ true
      → HasLease call.idempotency_key call.fresh_token
          (lease_end c call.now)
          (reserve c o policies members call w).1.database
  accepted-HasLease policies members call r w unique =
      reserve-Ends c o call w
        (λ x db.
          x ≡ reserved r
          → r.enabled ≡ true
          → HasLease call.idempotency_key call.fresh_token (lease_end c call.now) db)
        policies members
        (record {
          disabled = λ is_reserved is_enabled. ground arith;
          conflicts = λ text. λ is_reserved is_enabled. ground arith;
          fails = λ text. λ is_reserved is_enabled. ground arith;
          rejected = λ x y. λ is_reserved is_enabled. ground arith;
          booked = λ cost existing found idle fits. λ is_reserved is_enabled.
              booked-HasLease cost _ call existing w.database unique found;
        })

  -- Once a call is accepted, no call with the same idempotency key is given a lease before that one
  -- expires, whatever reservations and releases come between, provided that each of them comes
  -- before then with policies of distinct ids and a fresh id, and gives back no reservation that has
  -- the lease's token; at first the tables keep their unique constraints and each charge
  -- is of an event.
  pub lease_excludes_key :
      (policies : List Policy) (members : List Membership) (call : Call) (r : Reservation)
      (w : World)
      → IsUnique w.database
      → IsFresh (reserves policies members call) w
      → (reserve c o policies members call w).0 ≡ reserved r
      → r.enabled ≡ true
      → (ss : List Step)
      → AreWithinLease c o call.fresh_token
          (lease_end c call.now)
          ss
          (reserve c o policies members call w).1
      → (later_policies : List Policy) (later_members : List Membership) (again : Call)
      → again.idempotency_key ≡ call.idempotency_key
      → again.now < lease_end c call.now
      → grants
          (reserve c o later_policies later_members again
            (run c o ss (reserve c o policies members call w).1)).0
        ≡ false
  unfolding step
  lease_excludes_key policies members call r w unique fresh accepted on ss within later_policies
        later_members again same early =
      let key = call.idempotency_key in
      let token = call.fresh_token in
      let until = lease_end c call.now in
      let w1 = (reserve c o policies members call w).1 in
      leased-refused c o key token until later_policies later_members again (run c o ss w1) same
        early
        (run-HasLease c o key token until ss w1 within
          (step-IsUnique c o (reserves policies members call) w fresh unique)
          (accepted-HasLease policies members call r w unique accepted on))

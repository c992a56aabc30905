-- ===== src/Mcp/Quota/Accepted.antt =====
-- `reserve` accepts a call only within the limits of every policy that it matches.
use code_mate.Mcp.Quota.Cases.{matching-AreDistinct, reserve-Ends}
use text.Mathlib.TextPositions.{eq_refl}
use code_mate.Mcp.Quota.Limits.{check-All, book-IsWithin, IsWithin, IsConcurrent}
use code_mate.Mcp.Quota.RedisReserve.{Outside, Settings}
use code_mate.Lists.{All-map, All}
use code_mate.Mcp.Quota.Check.{check_policies}
use text.Mathlib.Text.{◌==◌ as str_eq}
use code_mate.Prelude.{
  sym, inr, subst, inl, Bool-cases, String, ℕ, ◌≡◌, true, false, Option, none, some, List, [], ◌∷◌,
  arith,
}
use code_mate.Mcp.Quota.Policy.{Membership, matching_policies, Policy}
use code_mate.Mcp.Quota.Usage.{Database, Event}
use code_mate.Mcp.Quota.Booking.{
  new_event, lease_event, book, find_key, reserved, World, Reservation, Call,
}
use code_mate.Mcp.Quota.Reserve.{reserve}
use code_mate.Mcp.Quota.Sums.{IsUnused, AreDistinct}
use code_mate.Mcp.Quota.Renewal.{renewed-IsConcurrent}

-- What an accepted call leaves, for the policies that it matches.
abbrev pub IsFitting : Call → List Policy → Option Event → Database → Type 0
IsFitting call ps existing db =
    All (IsConcurrent call.now call.context.run_id db) ps
    × (existing ≡ none → All (IsWithin call.now call.context.run_id db) ps)

pub find_key-All :
    (P : Event → Type 0) (key : String) (es : List Event) (e : Event)
    → All P es
    → find_key key es ≡ some e
    → P e
unfolding find_key
find_key-All P key [] e all found = ground arith
find_key-All P key (f ∷ es) e (first, all) found =
    elim (Bool-cases (str_eq f.idempotency_key key)) [
      | inl same ↦ subst P (ground (arith, same)) first
      | inr other ↦ find_key-All P key es e all (ground (arith, other))
    ]

module _ (c : Settings) (call : Call) (ps : List Policy) (d : AreDistinct ps) (w : World)
    (u : IsUnused call.fresh_id w.database.charges)
    (named : All (λ e. str_eq e.id "" ≡ false) w.database.events) where
  book-IsFitting :
      (cost : ℕ) (existing : Option Event)
      → find_key call.idempotency_key w.database.events ≡ existing
      → check_policies ps call.context call.now cost existing w.database ≡ none
      → IsFitting call ps existing (book c call cost ps existing w.database)
  unfolding lease_event new_event
  book-IsFitting cost none found h =
      let within =
        All-map _ (IsWithin call.now call.context.run_id (book c call cost ps none w.database)) ps
          (λ p passes.
            book-IsWithin call cost p ps d (lease_event c call (new_event call cost))
              w.database.events w.database.charges u call.context call.now w.database.rejections
              passes)
          (check-All ps call.context call.now cost none w.database h) in
      (All-map _ _ ps (λ p all. all.4) within, λ first. within)
  book-IsFitting cost (some e) found h = (
    All-map _ _ ps
        (λ p passes.
          renewed-IsConcurrent p call.context call.now cost e (lease_event c call e) w.database
            (eq_refl e.id) (find_key-All _ call.idempotency_key w.database.events e named found)
            passes)
        (check-All ps call.context call.now cost (some e) w.database h),
    λ first. ground arith,
  )

module _ (c : Settings) (o : Outside) (call : Call) (r : Reservation) (w : World)
    (u : IsUnused call.fresh_id w.database.charges)
    (named : All (λ e. str_eq e.id "" ≡ false) w.database.events) where
  -- A call that is accepted leaves the number of leases of every policy that it matches within its
  -- limit, and, when its key is new, also the calls of the last minute, of the day and of the run and
  -- the cost of the day, as the tables count them at that time, whatever Redis answers; the policies
  -- of the table have distinct ids, no event has an empty id, and no charge has the fresh one.
  pub reserve-IsFitting :
      (policies : List Policy) (members : List Membership)
      → AreDistinct policies
      → (reserve c o policies members call w).0 ≡ reserved r
      → r.enabled ≡ true
      → IsFitting call
          (matching_policies call.context call.server_name call.tool_name members policies)
          (find_key call.idempotency_key w.database.events)
          (reserve c o policies members call w).1.database
  reserve-IsFitting policies members d =
      let ps = matching_policies call.context call.server_name call.tool_name members policies in
      let existing = find_key call.idempotency_key w.database.events in
      reserve-Ends c o call w
        (λ x db. x ≡ reserved r → r.enabled ≡ true → IsFitting call ps existing db) policies members
        (record {
          disabled = λ is_reserved is_enabled. ground arith;
          conflicts = λ text. λ is_reserved is_enabled. ground arith;
          fails = λ text. λ is_reserved is_enabled. ground arith;
          rejected = λ x y. λ is_reserved is_enabled. ground arith;
          booked = λ cost known found idle fits. λ is_reserved is_enabled.
              subst (λ k. IsFitting call ps k (book c call cost ps known w.database)) (sym found)
                (book-IsFitting c call ps
                  (matching-AreDistinct call.context call.server_name call.tool_name members
                    policies d)
                  w u named cost known found fits);
        })

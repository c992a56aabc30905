-- ===== src/Mcp/Quota/Cases.antt =====
-- How a call can end: what `reserve` returns and leaves in the tables, and what `release` leaves.
use text.Mathlib.Text.{◌==◌ as str_eq}
use code_mate.Mcp.Quota.Check.{Denial}
use code_mate.Mcp.Quota.Sums.{AreDistinct}
use code_mate.Mcp.Quota.Usage.{find_event, Event, Rejection, Database}
use code_mate.Mcp.Quota.Reserve.{reserve_event, after_check, reserve_matching, settle, reserve}
use code_mate.Mcp.Quota.Policy.{is_later, matching_policies, Membership, Policy}
use code_mate.Mcp.Quota.Booking.{
  exceeded, unavailable_error, conflict, no_reservation, leased_event, Result, replace_event,
  is_other_request, book, find_key, with_rejection, Reservation, reject, World, Call,
}
use code_mate.Mcp.Quota.Release.{release_id, release_in, release_event, same_token, release}
use code_mate.Mcp.Quota.RedisReserve.{
  Exceeded, unavailable, passed, limited, Redis, Limiter, Outside, Settings,
}
use code_mate.Prelude.{
  refl, inr, inl, ◌||◌, Bool-cases, none, [], true, some, not, if-both, Option, ◌∷◌, String, Bool,
  List, ℕ, ◌≡◌,
}
use code_mate.Mcp.Quota.RedisReserve.{
  passed, unavailable, limited, Redis, Limiter, Outside, Settings,
}
use code_mate.Lists.{member}
use code_mate.Mcp.Quota.Check.{Denial, check_policies}
use text.Mathlib.Text.{◌==◌ as str_eq}
use code_mate.Prelude.{
  not, inr, inl, Bool-cases, ◌&&◌, if-both, String, ℕ, ◌≡◌, refl, true, false, Option, none, some,
  List, [], ◌∷◌, arith,
}
use code_mate.Mcp.Quota.Policy.{
  principals, Membership, is_later, matching_policies, is_principal, is_selected, Context,
  filter_matching, Policy,
}
use code_mate.Mcp.Quota.Usage.{Database, Event}
use code_mate.Mcp.Quota.Booking.{
  is_other_request, reject, book, find_key, reserved, World, Result, policy_ids, Reservation, Call,
}
use code_mate.Mcp.Quota.Reserve.{reserve, reserve_matching, reserve_event, after_check, settle}
use code_mate.Mcp.Quota.Sums.{AreDistinct}

member-matching :
    (context : Context) (server_name tool_name : String) (who : List (String × String))
    (id : String) (ps : List Policy)
    → member id (policy_ids ps) ≡ false
    → member id (policy_ids (filter_matching context server_name tool_name who ps)) ≡ false
unfolding filter_matching policy_ids member
member-matching context server_name tool_name who id [] m = refl
member-matching context server_name tool_name who id (p ∷ ps) m =
    ground (arith, member-matching context server_name tool_name who id ps)

filter-AreDistinct :
    (context : Context) (server_name tool_name : String) (who : List (String × String))
    (ps : List Policy)
    → AreDistinct ps
    → AreDistinct (filter_matching context server_name tool_name who ps)
unfolding filter_matching
filter-AreDistinct context server_name tool_name who [] d = tt
filter-AreDistinct context server_name tool_name who (p ∷ ps) (m, d) =
    let rest = filter-AreDistinct context server_name tool_name who ps d in
    let kept : AreDistinct (p ∷ filter_matching context server_name tool_name who ps) =
      (member-matching context server_name tool_name who p.id ps m, rest) in
    if-both AreDistinct (is_selected context server_name tool_name p && is_principal p who) kept
      rest

pub matching-AreDistinct :
    (context : Context) (server_name tool_name : String) (members : List Membership)
    (ps : List Policy)
    → AreDistinct ps
    → AreDistinct (matching_policies context server_name tool_name members ps)
unfolding matching_policies
matching-AreDistinct context server_name tool_name members =
    filter-AreDistinct context server_name tool_name (principals context members)

-- Another call holds the lease of the event.
abbrev pub is_held : ℕ → Option Event → Bool
is_held now none = false
is_held now (some e) = is_later e.lease_expires_at now

-- The reservation of a call that has been booked.
abbrev pub reservation : Settings → Call → ℕ → List Policy → Option Event → Reservation
reservation c call cost ps existing = record {
  event_id = some (leased_event c call cost existing).id;
  lease_token = some call.fresh_token;
  policy_ids = policy_ids ps;
  enabled = true;
}

-- Every way in which `reserve` can end with the policies that the call matches.
pub record Ends (c : Settings) (call : Call) (ps : List Policy) (db : Database)
    (P : Result → Database → Type 0) : Type 0 where
  pub disabled : P (reserved no_reservation) db
  pub conflicts : (text : String) → P (conflict text) db
  pub fails : (text : String) → P (unavailable_error text) db
  pub rejected : (x : Exceeded) (r : Rejection) → P (exceeded x) (with_rejection r db)
  pub booked :
      (cost : ℕ) (existing : Option Event)
      → find_key call.idempotency_key db.events ≡ existing
      → is_held call.now existing ≡ false
      → check_policies ps call.context call.now cost existing db ≡ none
      → P (reserved (reservation c call cost ps existing)) (book c call cost ps existing db)

abbrev Holds : (Result → Database → Type 0) → Result × World → Type 0
Holds P (result, w) = P result w.database

module _ (c : Settings) (o : Outside) (call : Call) (ps : List Policy) (w : World)
    (P : Result → Database → Type 0) (ends : Ends c call ps w.database P) where
  settle-Ends :
      (cost : ℕ) (existing : Option Event) (l : Limiter × Redis)
      → find_key call.idempotency_key w.database.events ≡ existing
      → is_held call.now existing ≡ false
      → check_policies ps call.context call.now cost existing w.database ≡ none
      → Holds P (settle c call cost ps existing w.database l)
  unfolding settle
  settle-Ends cost existing (passed, redis) found idle fits =
      ends.booked cost existing found idle fits
  settle-Ends cost existing (limited x, redis) found idle fits = ends.rejected _ _
  settle-Ends cost existing (unavailable, redis) found idle fits = ends.fails _

  after_check-Ends :
      (cost : ℕ) (existing : Option Event) (x : Option (Policy × Denial))
      → find_key call.idempotency_key w.database.events ≡ existing
      → is_held call.now existing ≡ false
      → check_policies ps call.context call.now cost existing w.database ≡ x
      → Holds P (after_check c o call cost ps existing w x)
  unfolding reject
  after_check-Ends cost existing (some (p, x)) found idle fits = ends.rejected _ _
  after_check-Ends cost existing none found idle fits = settle-Ends cost existing _ found idle fits

module _ (c : Settings) (o : Outside) (call : Call) (w : World)
    (P : Result → Database → Type 0) where
  reserve_event-Ends :
      (p : Policy) (ps : List Policy) (existing : Option Event)
      → Ends c call (p ∷ ps) w.database P
      → find_key call.idempotency_key w.database.events ≡ existing
      → Holds P (reserve_event c o call p ps w existing)
  unfolding reject
  reserve_event-Ends p ps none ends found =
      after_check-Ends c o call (p ∷ ps) w P ends _ none _ found refl refl
  reserve_event-Ends p ps (some e) ends found =
      if-both (Holds P) (is_other_request call e) (ends.conflicts _)
        (elim (Bool-cases (is_later e.lease_expires_at call.now)) [
          | inl held ↦ rw held (ends.rejected _ _)
          | inr idle ↦
              rw idle (after_check-Ends c o call (p ∷ ps) w P ends _ (some e) _ found idle refl)
        ])

  reserve_matching-Ends :
      (ps : List Policy) → Ends c call ps w.database P → Holds P (reserve_matching c o call ps w)
  reserve_matching-Ends [] ends = ends.disabled
  reserve_matching-Ends (p ∷ ps) ends = reserve_event-Ends p ps _ ends refl

  pub reserve-Ends :
      (policies : List Policy) (members : List Membership)
      → Ends c call
          (matching_policies call.context call.server_name call.tool_name members policies)
          w.database
          P
      → P (reserve c o policies members call w).0 (reserve c o policies members call w).1.database
  unfolding reserve
  reserve-Ends policies members ends =
      let ps = matching_policies call.context call.server_name call.tool_name members policies in
      if-both (Holds P) (not c.mcp_quota_enabled) ends.disabled (
        if-both (Holds P) (str_eq call.context.tenant_id "") (ends.fails _)
          (reserve_matching-Ends ps ends))

module _ (c : Settings) (answers : Bool) (now : ℕ) (outcome : String) (r : Reservation) (w : World)
    (P : Database → Type 0) (same : P w.database)
    (freed : (id : String) (e : Event)
      → find_event id w.database.events ≡ some e
      → same_token e.lease_token r.lease_token ≡ true
      → P (record w.database {
        events = replace_event (release_event now outcome e) w.database.events;
      })) where
  release_in-Ends :
      (id : String) (found : Option Event)
      → find_event id w.database.events ≡ found
      → P (release_in now outcome r.lease_token found w.database)
  release_in-Ends id none h = same
  release_in-Ends id (some e) h = elim (Bool-cases (same_token e.lease_token r.lease_token)) [
    | inl t ↦ rw t (freed id e h t)
    | inr f ↦ rw f same
  ]

  release_id-Ends : (id : Option String) → P (release_id c answers now outcome r id w).database
  release_id-Ends none = same
  release_id-Ends (some id) =
      if-both (λ (v : World). P v.database) (not r.enabled || str_eq id "") same
        (release_in-Ends id _ refl)

  -- What `release` may leave: nothing changed, or the event without its lease.
  pub release-Ends : P (release c answers now outcome r w).database
  unfolding release
  release-Ends = release_id-Ends r.event_id

-- ===== src/Mcp/Quota/Unique.antt =====
-- Every call keeps the unique constraints: a request is never charged twice.
use text.Mathlib.TextEquality.{eq_iff}
use text.Mathlib.TextPositions.{eq_refl}
use code_mate.Mcp.Quota.Accepted.{find_key-All}
use text.Mathlib.Text.{◌==◌ as str_eq}
use code_mate.Mcp.Quota.Policy.{Policy}
use code_mate.Mcp.Quota.Cases.{release-Ends, matching-AreDistinct, reserve-Ends}
use code_mate.Lists.{All}
use code_mate.Mcp.Quota.Release.{release_event}
use code_mate.Mcp.Quota.Sums.{AreDistinct}
use code_mate.Mcp.Quota.Keys.{
  charges-add_other, charges-unused, charges-add, joined-new, joined-add, keyed-new,
  joined-IsUnused, joined-replace, keyed-replace, IsFound, IsUnique,
}
use code_mate.Mcp.Quota.Booking.{book, find_key, new_event, lease_event, replace_event, Call, World}
use code_mate.Mcp.Quota.RedisReserve.{Outside, Settings}
use code_mate.Mcp.Quota.Steps.{releases, step, reserves, Step}
use code_mate.Mcp.Quota.Usage.{Event, Database, find_event}
use code_mate.Prelude.{
  [], inr, subst, refl, inl, Option, Bool-cases, ◌∷◌, arith, ℕ, some, none, List, String, ◌≡◌,
}

pub find_event-All :
    (P : Event → Type 0) (id : String) (es : List Event) (e : Event)
    → All P es
    → find_event id es ≡ some e
    → P e
unfolding find_event
find_event-All P id [] e all found = ground arith
find_event-All P id (f ∷ es) e (first, all) found = elim (Bool-cases (str_eq f.id id)) [
  | inl same ↦ subst P (ground (arith, same)) first
  | inr other ↦ find_event-All P id es e all (ground (arith, other))
]

-- What the caller of a step has to see to: policies with distinct ids, and a fresh id.
abbrev pub IsFresh : Step → World → Type 0
IsFresh (reserves policies members call) w =
    AreDistinct policies × (find_event call.fresh_id w.database.events ≡ none)
IsFresh (releases answers now outcome r) w = Unit

-- An event that keeps its id and its key is changed.
replace-IsUnique :
    (db : Database) (f new : Event)
    → IsUnique db
    → IsFound db.events f
    → new.id ≡ f.id
    → new.idempotency_key ≡ f.idempotency_key
    → IsUnique (record db { events = replace_event new db.events })
replace-IsUnique db f new unique found same_id same_key = record {
  keyed = keyed-replace f new db.events unique.keyed found same_id same_key;
  joined = joined-replace new db.events db.charges unique.joined;
  once = unique.once;
}

module _ (c : Settings) (call : Call) (db : Database) (unique : IsUnique db)
    (fresh : find_event call.fresh_id db.events ≡ none) where
  new-IsUnique :
      (cost : ℕ) (ps : List Policy)
      → AreDistinct ps
      → find_key call.idempotency_key db.events ≡ none
      → IsUnique (book c call cost ps none db)
  unfolding lease_event new_event find_event
  new-IsUnique cost ps d new =
      let n = lease_event c call (new_event call cost) in
      let unused = joined-IsUnused call.fresh_id db.events db.charges unique.joined fresh in
      record {
        keyed = keyed-new n db.events unique.keyed fresh new;
        joined =
            joined-add call cost ps (n ∷ db.events) db.charges
              (ground (arith, eq_refl call.fresh_id))
              (joined-new n db.events db.charges unique.joined);
        once = λ event_id policy_id. elim (Bool-cases (str_eq call.fresh_id event_id)) [
          | inl same ↦ ground (
            arith,
            charges-add event_id policy_id call cost ps db.charges d,
            charges-unused call.fresh_id policy_id db.charges unused,
            eq_iff call.fresh_id event_id,
          )
          | inr other ↦ ground (
            arith,
            charges-add_other event_id policy_id call cost ps db.charges,
            unique.once event_id policy_id,
          )
        ];
      }

  book-IsUnique :
      (cost : ℕ) (ps : List Policy) (existing : Option Event)
      → AreDistinct ps
      → find_key call.idempotency_key db.events ≡ existing
      → IsUnique (book c call cost ps existing db)
  unfolding lease_event
  book-IsUnique cost ps none d found = new-IsUnique cost ps d found
  book-IsUnique cost ps (some e) d found =
      replace-IsUnique db e (lease_event c call e) unique
        (find_key-All (IsFound db.events) call.idempotency_key db.events e unique.keyed found) refl
        refl

module _ (c : Settings) (o : Outside) where
  -- Every reservation and every release, on every branch, keeps the constraints of the tables: each
  -- event is the only one with its id and the only one with its idempotency key, each charge is of an
  -- event of the table, and no policy is charged twice for one event, however often its key is
  -- reserved again; the policies have distinct ids and the call has a fresh id.
  pub step-IsUnique :
      (s : Step) (w : World) → IsFresh s w → IsUnique w.database → IsUnique (step c o s w).database
  unfolding step release_event
  step-IsUnique (reserves policies members call) w (d, fresh) unique =
      reserve-Ends c o call w (λ x db. IsUnique db) policies members
        (record {
          disabled = unique;
          conflicts = λ text. unique;
          fails = λ text. unique;
          rejected =
              λ x r. record { keyed = unique.keyed; joined = unique.joined; once = unique.once };
          booked = λ cost existing found idle fits.
              book-IsUnique c call w.database unique fresh cost _ existing
                (matching-AreDistinct call.context call.server_name call.tool_name members policies
                  d)
                found;
        })
  step-IsUnique (releases answers now outcome r) w fresh unique =
      release-Ends c answers now outcome r w IsUnique unique (λ id e found token.
        replace-IsUnique w.database e (release_event now outcome e) unique
          (find_event-All (IsFound w.database.events) id w.database.events e unique.keyed found)
          refl refl)

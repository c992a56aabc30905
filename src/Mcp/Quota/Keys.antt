-- ===== src/Mcp/Quota/Keys.antt =====
-- The constraints of the tables: one event for each id and for each idempotency key, and one
-- charge for each event and policy.
use code_mate.Mcp.Quota.Policy.{Policy}
use text.Mathlib.TextEquality.{eq_iff}
use code_mate.Mcp.Quota.Sums.{AreDistinct, IsUnused, find-replace, replaced}
use text.Mathlib.TextPositions.{eq_refl}
use text.Mathlib.Text.{◌==◌ as str_eq}
use code_mate.Lists.{All-zip, member, All-map, All}
use code_mate.Mcp.Quota.Booking.{policy_ids, Call, add_charges, replace_event, find_key}
use code_mate.Mcp.Quota.Usage.{Charge, Event, find_event, Database}
use code_mate.Prelude.{
  Option, refl, inr, inl, Bool-cases, ◌≤◌, suc, [], arith, false, true, if◌then◌else◌, ◌&&◌, ◌∷◌,
  none, is_some, ℕ, some, String, List, ◌≡◌,
}

-- The event is the one that its id and its key find.
abbrev pub IsFound : List Event → Event → Type 0
IsFound es e = (find_event e.id es ≡ some e) × (find_key e.idempotency_key es ≡ some e)

-- How often a policy is charged for an event.
unfoldable pub charges_for : String → String → List Charge → ℕ
charges_for event_id policy_id [] = 0
charges_for event_id policy_id (ch ∷ chs) =
    let rest = charges_for event_id policy_id chs in
    if str_eq ch.event_id event_id && str_eq ch.policy_id policy_id then suc rest else rest

pub record IsUnique (db : Database) : Type 0 where
  pub keyed : All (IsFound db.events) db.events
  pub joined : All (λ ch. is_some (find_event ch.event_id db.events) ≡ true) db.charges
  pub once : (event_id policy_id : String) → charges_for event_id policy_id db.charges ≤ 1

find_key-none :
    (k : String) (es : List Event)
    → find_key k es ≡ none
    → All (λ e. str_eq e.idempotency_key k ≡ false) es
unfolding find_key
find_key-none k [] h = tt
find_key-none k (e ∷ es) h = (ground arith, find_key-none k es (ground arith))

find_event-none :
    (id : String) (es : List Event) → find_event id es ≡ none → All (λ e. str_eq e.id id ≡ false) es
unfolding find_event
find_event-none id [] h = tt
find_event-none id (e ∷ es) h = (ground arith, find_event-none id es (ground arith))

-- A new event with a fresh id and a new key.
pub keyed-new :
    (n : Event) (es : List Event)
    → All (IsFound es) es
    → find_event n.id es ≡ none
    → find_key n.idempotency_key es ≡ none
    → All (IsFound (n ∷ es)) (n ∷ es)
unfolding find_event find_key
keyed-new n es keyed fresh new = (
  (ground (arith, eq_refl n.id), ground (arith, eq_refl n.idempotency_key)),
  All-map _ _ es
      (λ e h. (
        ground (arith, h, eq_iff n.id e.id, eq_iff e.id n.id),
        ground (
          arith,
          h,
          eq_iff n.idempotency_key e.idempotency_key,
          eq_iff e.idempotency_key n.idempotency_key,
        ),
      ))
      (All-zip _ _ es keyed
        (All-zip _ _ es (find_event-none n.id es fresh) (find_key-none n.idempotency_key es new))),
)

All-replace :
    (P Q : Event → Type 0) (new : Event) (es : List Event)
    → Q new
    → ((e : Event) → P e → str_eq e.id new.id ≡ false → Q e)
    → All P es
    → All Q (replace_event new es)
unfolding replace_event
All-replace P Q new [] q other all = tt
All-replace P Q new (e ∷ es) q other (p, all) = elim (Bool-cases (str_eq e.id new.id)) [
  | inl same ↦ rw same (q, All-replace P Q new es q other all)
  | inr different ↦ rw different (other e p different, All-replace P Q new es q other all)
]

find_key-replace :
    (new : Event) (k : String) (es : List Event)
    → All (λ e. str_eq e.id new.id ≡ true → e.idempotency_key ≡ new.idempotency_key) es
    → find_key k (replace_event new es) ≡ replaced new (find_key k es)
unfolding find_key replace_event
find_key-replace new k [] same = refl
find_key-replace new k (e ∷ es) (h, same) = ground (
  arith,
  find_key-replace new k es same,
  h,
  eq_iff e.idempotency_key k,
  eq_iff new.idempotency_key k,
)

-- An event that is changed, but for its id and its key, is found in the place of what it was.
pub find_key-same :
    (f new : Event) (es : List Event)
    → All (IsFound es) es
    → IsFound es f
    → new.id ≡ f.id
    → new.idempotency_key ≡ f.idempotency_key
    → (k : String) → find_key k (replace_event new es) ≡ replaced new (find_key k es)
find_key-same f new es keyed found same_id same_key k = find_key-replace new k es (
    All-map _ (λ e. str_eq e.id new.id ≡ true → e.idempotency_key ≡ new.idempotency_key) es
      (λ e h. λ same. ground (arith, h, same, found, same_id, same_key, eq_iff e.id new.id)) keyed)

pub keyed-replace :
    (f new : Event) (es : List Event)
    → All (IsFound es) es
    → IsFound es f
    → new.id ≡ f.id
    → new.idempotency_key ≡ f.idempotency_key
    → All (IsFound (replace_event new es)) (replace_event new es)
keyed-replace f new es keyed found same_id same_key =
    let keys = find_key-same f new es keyed found same_id same_key in
    All-replace (IsFound es) (IsFound (replace_event new es)) new es
      (
        rw (find-replace new new.id es)
            (ground (arith, found, same_id, eq_refl f.id, eq_iff f.id new.id)),
        rw (keys new.idempotency_key)
            (ground (arith, found, same_key, same_id, eq_refl f.id, eq_iff f.id new.id)),
      )
      (λ e h different. (
        rw (find-replace new e.id es) (ground (arith, h, different)),
        rw (keys e.idempotency_key) (ground (arith, h, different)),
      ))
      keyed

pub joined-new :
    (n : Event) (es : List Event) (chs : List Charge)
    → All (λ ch. is_some (find_event ch.event_id es) ≡ true) chs
    → All (λ ch. is_some (find_event ch.event_id (n ∷ es)) ≡ true) chs
unfolding find_event
joined-new n es chs joined = All-map _ _ chs (λ ch h. ground arith) joined

pub joined-add :
    (call : Call) (cost : ℕ) (ps : List Policy) (es : List Event) (chs : List Charge)
    → is_some (find_event call.fresh_id es) ≡ true
    → All (λ ch. is_some (find_event ch.event_id es) ≡ true) chs
    → All (λ ch. is_some (find_event ch.event_id es) ≡ true) (add_charges call cost ps chs)
unfolding add_charges
joined-add call cost [] es chs known joined = joined
joined-add call cost (p ∷ ps) es chs known joined =
    (known, joined-add call cost ps es chs known joined)

replaced-some :
    (new : Event) (o : Option Event) → is_some o ≡ true → is_some (replaced new o) ≡ true
replaced-some new none h = h
replaced-some new (some e) h = ground arith

pub joined-replace :
    (new : Event) (es : List Event) (chs : List Charge)
    → All (λ ch. is_some (find_event ch.event_id es) ≡ true) chs
    → All (λ ch. is_some (find_event ch.event_id (replace_event new es)) ≡ true) chs
joined-replace new es chs joined =
    All-map _ _ chs
      (λ ch h.
        rw (find-replace new ch.event_id es) (replaced-some new (find_event ch.event_id es) h))
      joined

-- A fresh id has no charge.
pub joined-IsUnused :
    (id : String) (es : List Event) (chs : List Charge)
    → All (λ ch. is_some (find_event ch.event_id es) ≡ true) chs
    → find_event id es ≡ none
    → IsUnused id chs
joined-IsUnused id es chs joined fresh =
    All-map _ _ chs (λ ch h. ground (arith, h, fresh, eq_iff id ch.event_id)) joined

pub charges-unused :
    (event_id policy_id : String) (chs : List Charge)
    → IsUnused event_id chs
    → charges_for event_id policy_id chs ≡ 0
unfolding charges_for
charges-unused event_id policy_id [] u = refl
charges-unused event_id policy_id (ch ∷ chs) (ne, u) = ground (
  arith,
  charges-unused event_id policy_id chs u,
  eq_iff event_id ch.event_id,
  eq_iff ch.event_id event_id,
)

pub charges-add_other :
    (event_id policy_id : String) (call : Call) (cost : ℕ) (ps : List Policy) (chs : List Charge)
    → str_eq call.fresh_id event_id && member policy_id (policy_ids ps) ≡ false
    → charges_for event_id policy_id (add_charges call cost ps chs)
      ≡ charges_for event_id policy_id chs
unfolding charges_for add_charges policy_ids member
charges-add_other event_id policy_id call cost [] chs h = refl
charges-add_other event_id policy_id call cost (p ∷ ps) chs h =
    ground (arith, charges-add_other event_id policy_id call cost ps chs)

pub charges-add :
    (event_id policy_id : String) (call : Call) (cost : ℕ) (ps : List Policy) (chs : List Charge)
    → AreDistinct ps
    → charges_for event_id policy_id (add_charges call cost ps chs)
      ≤ suc (charges_for event_id policy_id chs)
unfolding charges_for add_charges
charges-add event_id policy_id call cost [] chs d = omega arith
charges-add event_id policy_id call cost (p ∷ ps) chs (ne, d) = ground (
  arith,
  charges-add event_id policy_id call cost ps chs d,
  charges-add_other event_id policy_id call cost ps chs,
  eq_iff p.id policy_id,
)

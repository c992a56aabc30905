-- ===== src/Mcp/Quota/Sums.antt =====
-- How a call that is booked changes what `_policy_usage` sums and counts.
use text.Mathlib.Text.{◌==◌ as str_eq}
use text.Mathlib.TextEquality.{eq_iff}
use code_mate.Prelude.{
  suc, if◌then◌else◌, ℕ, ◌+◌, ◌≤◌, ◌≡◌, refl, String, Bool, true, false, Option, none, some, List,
  [], ◌∷◌, arith, inl, inr, Bool-cases,
}
use code_mate.Lists.{All, member}
use code_mate.Mcp.Quota.Policy.{Policy}
use code_mate.Mcp.Quota.Usage.{
  count_distinct, ids, Event, Charge, counted, with_event, find_event, sum_of, events_of,
}
use code_mate.Mcp.Quota.Booking.{replace_event, Call, charge_of, add_charges, policy_ids}

-- No two policies of the list have one id.
abbrev pub AreDistinct : List Policy → Type 0
AreDistinct [] = Unit
AreDistinct (p ∷ ps) = (member p.id (policy_ids ps) ≡ false) × AreDistinct ps

-- No charge is of the event.
abbrev pub IsUnused : String → List Charge → Type 0
IsUnused id charges = All (λ c. str_eq id c.event_id ≡ false) charges

-- The test only passes charges of the policy.
abbrev pub IsOf : Policy → (Charge → Event → Bool) → Type 0
IsOf p test = (c : Charge) (e : Event) → test c e ≡ true → str_eq c.policy_id p.id ≡ true

-- An event without charges changes no sum.
pub sum-new_event :
    (value : Charge → ℕ) (test : Charge → Event → Bool) (e : Event) (es : List Event)
    (cs : List Charge)
    → IsUnused e.id cs
    → sum_of value test (e ∷ es) cs ≡ sum_of value test es cs
unfolding sum_of find_event
sum-new_event value test e es [] u = refl
sum-new_event value test e es (c ∷ cs) (ne, u) = rw (sum-new_event value test e es cs u, ne) refl

pub events-new_event :
    (test : Charge → Event → Bool) (e : Event) (es : List Event) (cs : List Charge)
    → IsUnused e.id cs
    → events_of test (e ∷ es) cs ≡ events_of test es cs
unfolding events_of find_event
events-new_event test e es [] u = refl
events-new_event test e es (c ∷ cs) (ne, u) = rw (events-new_event test e es cs u, ne) refl

counted-le :
    (value : Charge → ℕ) (test : Charge → Event → Bool) (c : Charge) (o : Option Event)
    → counted value test c o ≤ value c
counted-le value test c none = omega arith
counted-le value test c (some e) = ground arith

counted_other :
    (value : Charge → ℕ) (test : Charge → Event → Bool) (p : Policy) (c : Charge) (o : Option Event)
    → IsOf p test
    → str_eq c.policy_id p.id ≡ false
    → counted value test c o ≡ 0
counted_other value test p c none f ne = refl
counted_other value test p c (some e) f ne = ground (arith, f c e)

with_event_other :
    (test : Charge → Event → Bool) (p : Policy) (c : Charge) (o : Option Event) (rest : List Event)
    → IsOf p test
    → str_eq c.policy_id p.id ≡ false
    → with_event test c o rest ≡ rest
with_event_other test p c none rest f ne = refl
with_event_other test p c (some e) rest f ne = ground (arith, f c e)

module _ (call : Call) (cost : ℕ) (p : Policy) (test : Charge → Event → Bool) (of : IsOf p test)
    (es : List Event) (cs : List Charge) where
  -- Charges of other policies change no sum of this one.
  sum-add_other :
      (value : Charge → ℕ) (ps : List Policy)
      → member p.id (policy_ids ps) ≡ false
      → sum_of value test es (add_charges call cost ps cs) ≡ sum_of value test es cs
  unfolding sum_of add_charges policy_ids member
  sum-add_other value [] ne = refl
  sum-add_other value (q ∷ ps) ne = ground (
    arith,
    sum-add_other value ps,
    counted_other value test p (charge_of call cost q)
        (find_event (charge_of call cost q).event_id es) of,
  )

  -- The charges of a call add at most one charge to the sum of a policy.
  pub sum-add_charges :
      (value : Charge → ℕ) (v : ℕ) (ps : List Policy)
      → ((q : Policy) → value (charge_of call cost q) ≡ v)
      → AreDistinct ps
      → sum_of value test es (add_charges call cost ps cs) ≤ sum_of value test es cs + v
  unfolding sum_of add_charges
  sum-add_charges value v [] worth d = omega arith
  sum-add_charges value v (q ∷ ps) worth (ne, d) =
      let c = charge_of call cost q in
      elim (Bool-cases (str_eq q.id p.id)) [
        | inl e ↦ ground (
          arith,
          worth q,
          counted-le value test c (find_event c.event_id es),
          eq_iff q.id p.id,
          sum-add_other value ps,
        )
        | inr n ↦ ground (
          arith,
          sum-add_charges value v ps worth d,
          counted_other value test p c (find_event c.event_id es) of,
        )
      ]

  events-add_other :
      (ps : List Policy)
      → member p.id (policy_ids ps) ≡ false
      → events_of test es (add_charges call cost ps cs) ≡ events_of test es cs
  unfolding events_of add_charges policy_ids member
  events-add_other [] ne = refl
  events-add_other (q ∷ ps) ne = ground (
    arith,
    events-add_other ps,
    with_event_other test p (charge_of call cost q) (find_event (charge_of call cost q).event_id es)
        (events_of test es (add_charges call cost ps cs)) of,
  )

  count-with_event :
      (c : Charge) (o : Option Event) (rest : List Event)
      → count_distinct (ids (with_event test c o rest)) ≤ suc (count_distinct (ids rest))
  unfolding ids count_distinct
  count-with_event c none rest = omega arith
  count-with_event c (some e) rest = ground arith

  -- The charges of a call add at most one event to those that a policy counts.
  pub count-add_charges :
      (ps : List Policy)
      → AreDistinct ps
      → count_distinct (ids (events_of test es (add_charges call cost ps cs)))
        ≤ suc (count_distinct (ids (events_of test es cs)))
  unfolding events_of add_charges
  count-add_charges [] d = omega arith
  count-add_charges (q ∷ ps) (ne, d) =
      let c = charge_of call cost q in
      let rest = events_of test es (add_charges call cost ps cs) in
      elim (Bool-cases (str_eq q.id p.id)) [
        | inl e ↦ ground (
          arith,
          count-with_event c (find_event c.event_id es) rest,
          eq_iff q.id p.id,
          events-add_other ps,
        )
        | inr n ↦ ground (
          arith,
          count-add_charges ps d,
          with_event_other test p c (find_event c.event_id es) rest of,
        )
      ]

-- The texts of the list but one.
unfoldable pub without : String → List String → List String
without x [] = []
without x (y ∷ ys) = let rest = without x ys in if str_eq x y then rest else y ∷ rest

member-without :
    (x y : String) (ys : List String) → str_eq x y ≡ false → member y (without x ys) ≡ member y ys
unfolding member without
member-without x y [] ne = refl
member-without x y (z ∷ zs) ne =
    ground (arith, member-without x y zs, eq_iff x z, eq_iff z y, eq_iff x y)

without-absent : (x : String) (ys : List String) → member x ys ≡ false → without x ys ≡ ys
unfolding member without
without-absent x [] a = refl
without-absent x (y ∷ ys) a = ground (arith, without-absent x ys, eq_iff x y, eq_iff y x)

-- A list has at most one distinct text more than it has without a text.
pub count-without :
    (x : String) (ys : List String) → count_distinct ys ≤ suc (count_distinct (without x ys))
unfolding count_distinct without member
count-without x [] = omega arith
count-without x (y ∷ ys) =
    ground (arith, count-without x ys, without-absent x ys, member-without x y ys, eq_iff x y)

abbrev pub replaced : Event → Option Event → Option Event
replaced new none = none
replaced new (some e) = if str_eq e.id new.id then some new else some e

pub find-replace :
    (new : Event) (id : String) (es : List Event)
    → find_event id (replace_event new es) ≡ replaced new (find_event id es)
unfolding find_event replace_event
find-replace new id [] = refl
find-replace new id (e ∷ es) =
    ground (arith, find-replace new id es, eq_iff e.id new.id, eq_iff e.id id, eq_iff new.id id)

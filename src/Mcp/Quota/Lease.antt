-- ===== src/Mcp/Quota/Lease.antt =====
-- While one call holds the lease of an idempotency key, no other call gets it.
use code_mate.Mcp.Quota.Cases.{release-Ends, is_held, reserve-Ends}
use code_mate.Mcp.Quota.Policy.{Policy}
use code_mate.Mcp.Quota.Unique.{find_event-All, step-IsUnique, IsFresh}
use text.Mathlib.TextEquality.{eq_iff}
use code_mate.Mcp.Quota.Accepted.{find_key-All}
use text.Mathlib.Text.{◌==◌ as str_eq}
use code_mate.Mcp.Quota.Release.{release_event, same_token}
use code_mate.Mcp.Quota.Booking.{book, Call, new_event, World, lease_event, replace_event, find_key}
use code_mate.Mcp.Quota.Keys.{find_key-same, IsFound, IsUnique}
use code_mate.Mcp.Quota.Steps.{run, step, releases, reserves, Step}
use code_mate.Mcp.Quota.Usage.{Event, Database}
use code_mate.Mcp.Quota.RedisReserve.{Outside, Settings}
use code_mate.Prelude.{
  refl, none, inr, ap, inl, Bool-cases, [], Option, ◌∷◌, List, arith, true, false, some, ◌<◌, ℕ,
  String, ◌≡◌,
}

-- The key's event is leased with the token until the time.
abbrev pub HasLease : String → String → ℕ → Database → Type 0
HasLease key token until db =
    (e : Event) × (find_key key db.events ≡ some e)
    × (e.lease_token ≡ some token)
    × (e.lease_expires_at ≡ some until)

-- What the caller of a step must not do: let the lease run out, or give back that very lease.
abbrev pub IsWithinLease : String → ℕ → Step → Type 0
IsWithinLease token until (reserves policies members call) = call.now < until
IsWithinLease token until (releases answers now outcome r) =
    same_token (some token) r.lease_token ≡ false

module _ (c : Settings) (key token : String) (until : ℕ) (db : Database)
    (unique : IsUnique db) where
  -- Another event is changed.
  replace-HasLease :
      (f new : Event)
      → IsFound db.events f
      → new.id ≡ f.id
      → new.idempotency_key ≡ f.idempotency_key
      → ((e : Event)
          → find_key key db.events ≡ some e
          → e.lease_token ≡ some token
          → e.lease_expires_at ≡ some until
          → str_eq e.id f.id ≡ false)
      → HasLease key token until db
      → HasLease key token until (record db { events = replace_event new db.events })
  replace-HasLease f new found same_id same_key other (e, by_key, held, expires) = (
    e,
    rw (find_key-same f new db.events unique.keyed found same_id same_key key)
        (ground (arith, by_key, other e by_key held expires, same_id)),
    held,
    expires,
  )

  -- Two events with one id are one event.
  found-same :
      (e f : Event)
      → find_key key db.events ≡ some e
      → IsFound db.events f
      → str_eq e.id f.id ≡ true
      → e ≡ f
  found-same e f by_key (by_id, by_key') same =
      let (e_by_id, e_by_key) =
        find_key-All (IsFound db.events) key db.events e unique.keyed by_key in
      ground (arith, e_by_id, by_id, (eq_iff e.id f.id).0 same)

-- What each step must keep to, in the world that it finds.
abbrev pub AreWithinLease : Settings → Outside → String → ℕ → List Step → World → Type 0
AreWithinLease c o token until [] w = Unit
AreWithinLease c o token until (s ∷ ss) w =
    IsFresh s w × IsWithinLease token until s × AreWithinLease c o token until ss (step c o s w)

module _ (c : Settings) (o : Outside) (key token : String) (until : ℕ) where
  book-HasLease :
      (call : Call) (cost : ℕ) (ps : List Policy) (existing : Option Event) (db : Database)
      → IsUnique db
      → call.now < until
      → find_key call.idempotency_key db.events ≡ existing
      → is_held call.now existing ≡ false
      → HasLease key token until db
      → HasLease key token until (book c call cost ps existing db)
  unfolding find_key lease_event new_event
  book-HasLease call cost ps none db unique early found idle (e, by_key, held, expires) =
      (e, ground (arith, eq_iff call.idempotency_key key), held, expires)
  book-HasLease call cost ps (some f) db unique early found idle lease =
      let f_found =
        find_key-All (IsFound db.events) call.idempotency_key db.events f unique.keyed found in
      replace-HasLease c key token until db unique f (lease_event c call f) f_found refl refl
        (λ e by_key held expires. elim (Bool-cases (str_eq e.id f.id)) [
          | inl same ↦ ground (
            arith,
            ap (λ x. x.lease_expires_at)
                (found-same c key token until db unique e f by_key f_found same),
          )
          | inr other ↦ other
        ])
        lease

  step-HasLease :
      (s : Step) (w : World)
      → IsFresh s w
      → IsWithinLease token until s
      → IsUnique w.database
      → HasLease key token until w.database
      → HasLease key token until (step c o s w).database
  unfolding step release_event
  step-HasLease (reserves policies members call) w fresh early unique lease =
      reserve-Ends c o call w (λ x db. HasLease key token until db) policies members
        (record {
          disabled = lease;
          conflicts = λ text. lease;
          fails = λ text. lease;
          rejected = λ x r. lease;
          booked = λ cost existing found idle fits.
              book-HasLease call cost _ existing w.database unique early found idle lease;
        })
  step-HasLease (releases answers now outcome r) w fresh other unique lease =
      release-Ends c answers now outcome r w (HasLease key token until) lease (λ id f found given.
        let f_found =
          find_event-All (IsFound w.database.events) id w.database.events f unique.keyed found in
        replace-HasLease c key token until w.database unique f (release_event now outcome f) f_found
          refl refl
          (λ e by_key held expires. elim (Bool-cases (str_eq e.id f.id)) [
            | inl same ↦ ground (
              arith,
              other,
              ap (λ x. x.lease_token)
                  (found-same c key token until w.database unique e f by_key f_found same),
            )
            | inr different ↦ different
          ])
          lease)

  pub run-HasLease :
      (ss : List Step) (w : World)
      → AreWithinLease c o token until ss w
      → IsUnique w.database
      → HasLease key token until w.database
      → HasLease key token until (run c o ss w).database
  run-HasLease [] w within unique lease = lease
  run-HasLease (s ∷ ss) w (fresh, early, within) unique lease =
      run-HasLease ss (step c o s w) within (step-IsUnique c o s w fresh unique)
        (step-HasLease s w fresh early unique lease)

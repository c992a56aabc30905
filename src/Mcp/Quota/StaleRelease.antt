-- ===== src/Mcp/Quota/StaleRelease.antt =====
-- What `release` does with a reservation whose lease another call has taken over.
use text.Mathlib.Text.{◌==◌ as str_eq}
use code_mate.Mcp.Quota.Usage.{find_event, Event}
use code_mate.Mcp.Quota.Release.{same_token, release}
use code_mate.Lists.{All}
use code_mate.Mcp.Quota.Booking.{Reservation, World}
use text.Mathlib.TextPositions.{eq_refl}
use code_mate.Mcp.Quota.Atomic.{keys-insert}
use code_mate.Mcp.Quota.Script.{keys_of, PolicyKeys}
use code_mate.Mcp.Quota.RedisReserve.{
  redis_release, Settings, release_loop, release_policy, release_keys, remove_member,
}
use code_mate.Dict.{Dict, lookup}
use code_mate.Prelude.{false, true, List, refl, [], ◌∷◌, arith, some, Option, none, ℕ, String, ◌≡◌}

lookup-remove : (m : String) (d : Dict ℕ) → lookup m (remove_member m d) ≡ none
unfolding lookup remove_member
lookup-remove m [] = refl
lookup-remove m ((j, v) ∷ d) = ground (arith, lookup-remove m d)

abbrev IsFree : String → Dict PolicyKeys → String → Type 0
IsFree m d id = lookup m (keys_of id d).concurrency ≡ none

release_policy-IsFree :
    (m id : String) (d : Dict PolicyKeys) (found : Option PolicyKeys)
    → lookup id d ≡ found
    → IsFree m (release_policy m id d found) id
unfolding lookup
release_policy-IsFree m id d none h = ground (arith, h)
release_policy-IsFree m id d (some k) h =
    rw (keys-insert id id (release_keys m k) d)
      (ground (arith, eq_refl id, lookup-remove m k.concurrency))

removed-stays :
    (m id j : String) (d : Dict PolicyKeys) (found : Option PolicyKeys)
    → IsFree m d j
    → IsFree m (release_policy m id d found) j
removed-stays m id j d none free = free
removed-stays m id j d (some k) free =
    rw (keys-insert id j (release_keys m k) d) (ground (arith, lookup-remove m k.concurrency, free))

loop-stays :
    (m : String) (ids : List String) (d : Dict PolicyKeys) (j : String)
    → IsFree m d j
    → IsFree m (release_loop m ids d) j
unfolding release_loop
loop-stays m [] d j free = free
loop-stays m (id ∷ ids) d j free =
    loop-stays m ids (release_policy m id d (lookup id d)) j
      (removed-stays m id j d (lookup id d) free)

loop-frees :
    (m : String) (ids : List String) (d : Dict PolicyKeys)
    → All (IsFree m (release_loop m ids d)) ids
unfolding release_loop
loop-frees m [] d = tt
loop-frees m (id ∷ ids) d =
    let d' = release_policy m id d (lookup id d) in
    (loop-stays m ids d' id (release_policy-IsFree m id d (lookup id d) refl), loop-frees m ids d')

module _ (c : Settings) (now : ℕ) (outcome : String) (w : World) where
  -- A release with a reservation whose token is no longer that of its event leaves the tables as they
  -- are, so that the event keeps the lease of the call that has taken it over; but in Redis it
  -- removes the event from the set of leases of every policy of the reservation, so that the lease
  -- is no longer counted there.
  pub stale_release_frees_slot :
      (r : Reservation) (id : String) (e : Event)
      → c.is_redis ≡ true
      → r.enabled ≡ true
      → r.event_id ≡ some id
      → str_eq id "" ≡ false
      → find_event id w.database.events ≡ some e
      → same_token e.lease_token r.lease_token ≡ false
      → ((release c true now outcome r w).database ≡ w.database)
        × All (IsFree id (release c true now outcome r w).redis.policies) r.policy_ids
  unfolding release redis_release
  stale_release_frees_slot r id e on enabled has named found stale =
      rw (has, enabled, named, found, stale, on) (refl, loop-frees id r.policy_ids w.redis.policies)

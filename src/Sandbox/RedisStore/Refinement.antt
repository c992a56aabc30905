-- ===== src/Sandbox/RedisStore/Refinement.antt =====
-- The Redis store and the memory store answer alike.
use text.Mathlib.Text.{◌==◌ as str_eq}
use code_mate.Prelude.{
  ℕ, ◌+◌, ◌*◌, ◌-◌, ◌≤◌, ◌<◌, ◌≡◌, refl, String, Bool, true, false, not, Option, none, some, arith,
  if◌then◌else◌, max,
}
use code_mate.Dict.{lookup, insert, keep}
use code_mate.Sandbox.ExecutionStore
use code_mate.Sandbox.ExecutionStore.{
  Store, Row, ExecutionResponse, ExecutionClaim, ClaimRequest, CompleteRequest, replied, conflict,
  cached, is_fresh, is_running, check_replay, lease, completed_row, leased_row, attempt_of,
  empty_store, lost_lease,
}
use code_mate.Sandbox.RedisStore
use code_mate.Sandbox.RedisStore.{
  RedisStore, Hash, is_alive, hash_at, expire_keys, expire_executions, lease_script, replay_script,
  claim_script, complete_script, leased_hash, completed_hash, empty_redis, loses, payload, second,
  int_seconds,
}
use code_mate.Sandbox.RedisStore.Agreement.{
  Survives, SameStore, SameRow, lookup-SameReplays, insert-SameReplays, keep-SameReplays,
  lookup-SameRows, insert-SameRows, keep-SameRows, is_whole, whole-add, int_seconds-add,
  ltb-int_seconds, leb-int_seconds,
}

-- The request with its times in microseconds, and one less for its assertion: Redis drops a key at its
-- expiry, and the memory store one later.
abbrev pub scale : ClaimRequest → ClaimRequest
scale r = record r {
  assertion_ttl = max 1 r.assertion_ttl * second - 1;
  lease_seconds = r.lease_seconds * second;
}

-- `claim` of the memory store, on the row that it finds.
abbrev claim_at : ℕ → ClaimRequest → Option Row → Store → Store × ExecutionClaim
claim_at now r none t = check_replay now r none t
claim_at now r (some row) t =
    if not (str_eq row.request_hash r.request_hash)
    then (t, replied conflict 0)
    else if not (is_running row.state)
    then (t, record { status = cached; response = row.response; attempt = row.attempt })
    else check_replay now r (some row) t

claim-eq :
    (now : ℕ) (r : ClaimRequest) (s : Store)
    → ExecutionStore.claim now r s
      ≡ claim_at now r
          (lookup r.execution_id s.executions)
          (record s { replays = keep (is_fresh now) s.replays })
unfolding ExecutionStore.claim
claim-eq now r s = ground arith

-- `complete` of the memory store, on the row that it finds.
abbrev complete_at : ℕ → CompleteRequest → Option Row → Store → Store × Bool
complete_at now r none s = (s, false)
complete_at now r (some row) s = if lost_lease now r row then (s, false) else (
  record s { executions = insert r.execution_id (completed_row r.response row) s.executions },
  true,
)

complete-eq :
    (now : ℕ) (r : CompleteRequest) (s : Store)
    → ExecutionStore.complete now r s ≡ complete_at now r (lookup r.execution_id s.executions) s
unfolding ExecutionStore.complete
complete-eq now r s = ground arith

module _ (dump : ExecutionResponse → String) (load : String → ExecutionResponse)
    (retention end : ℕ) where
  lease-SameStore :
      (now : ℕ) (r : ClaimRequest) (row : Option Row) (found : Option (Hash × ℕ)) (s : Store)
      (t : RedisStore)
      → end ≤ now + retention * second
      → is_whole now ≡ true
      → SameStore dump load end s t
      → SameRow dump load end row found
      → (elim row [ none ↦ true | some old ↦ is_running old.state ]) ≡ true
      → (SameStore dump load end
          (lease now (scale r) row s).0
          (lease_script dump load now retention r (hash_at found) t).0)
        × ((lease_script dump load now retention r (hash_at found) t).1
            ≡ (lease now (scale r) row s).1)
  unfolding lease lease_script
  lease-SameStore now r none none s t long whole same sr live = ground (
    arith,
    whole-add now r.lease_seconds whole,
    int_seconds-add now r.lease_seconds,
    insert-SameReplays r.assertion_jti (now + (max 1 r.assertion_ttl * second - 1))
        (now + max 1 r.assertion_ttl * second) r.execution_id s.replays t.replays,
    insert-SameRows dump load end r.execution_id (leased_row now (scale r) none)
        (leased_hash (int_seconds now) r RedisStore.empty_hash) (now + retention * second)
        s.executions t.executions,
  )
  lease-SameStore now r (some row) (some (h, n)) s t long whole same sr live = ground (
    arith,
    whole-add now r.lease_seconds whole,
    int_seconds-add now r.lease_seconds,
    ltb-int_seconds now row.lease_until whole,
    insert-SameReplays r.assertion_jti (now + (max 1 r.assertion_ttl * second - 1))
        (now + max 1 r.assertion_ttl * second) r.execution_id s.replays t.replays,
    insert-SameRows dump load end r.execution_id (leased_row now (scale r) (some row))
        (leased_hash (int_seconds now) r h) (now + retention * second) s.executions t.executions,
  )
  lease-SameStore now r none (some y) s t long whole same sr live = elim sr [ ]
  lease-SameStore now r (some x) none s t long whole same sr live = elim sr [ ]

  check_replay-SameStore :
      (now : ℕ) (r : ClaimRequest) (row : Option Row) (found : Option (Hash × ℕ)) (s : Store)
      (t : RedisStore)
      → end ≤ now + retention * second
      → is_whole now ≡ true
      → SameStore dump load end s t
      → SameRow dump load end row found
      → (elim row [ none ↦ true | some old ↦ is_running old.state ]) ≡ true
      → (SameStore dump load end
          (check_replay now (scale r) row s).0
          (replay_script dump load now retention r (hash_at found) t).0)
        × ((replay_script dump load now retention r (hash_at found) t).1
            ≡ (check_replay now (scale r) row s).1)
  unfolding check_replay replay_script
  check_replay-SameStore now r row found s t long whole same sr live = ground (
    arith,
    lease-SameStore now r row found s t long whole same sr live,
    lookup-SameReplays r.assertion_jti s.replays t.replays,
  )

  purge-SameStore :
      (now : ℕ) (s : Store) (t : RedisStore)
      → now < end
      → SameStore dump load end s t
      → SameStore dump load end
          (record s { replays = keep (is_fresh now) s.replays })
          (expire_keys now t)
  unfolding expire_keys
  purge-SameStore now s t early same = record {
    replays = keep-SameReplays now s.replays t.replays same.replays;
    executions = keep-SameRows dump load end now s.executions t.executions early same.executions;
  }

  claim_at-SameStore :
      (now : ℕ) (r : ClaimRequest) (row : Option Row) (found : Option (Hash × ℕ)) (s : Store)
      (t : RedisStore)
      → end ≤ now + retention * second
      → is_whole now ≡ true
      → SameStore dump load end s t
      → SameRow dump load end row found
      → (SameStore dump load end
          (claim_at now (scale r) row s).0
          (claim_script dump load now retention r (hash_at found) t).0)
        × ((claim_script dump load now retention r (hash_at found) t).1
            ≡ (claim_at now (scale r) row s).1)
  unfolding claim_script
  claim_at-SameStore now r none none s t long whole same sr =
      check_replay-SameStore now r none none s t long whole same sr refl
  claim_at-SameStore now r (some row) (some (h, n)) s t long whole same sr =
      ground (arith, check_replay-SameStore now r (some row) (some (h, n)) s t long whole same sr)
  claim_at-SameStore now r none (some y) s t long whole same sr = elim sr [ ]
  claim_at-SameStore now r (some x) none s t long whole same sr = elim sr [ ]

  pub claim-SameStore :
      (now : ℕ) (r : ClaimRequest) (s : Store) (t : RedisStore)
      → now < end
      → end ≤ now + retention * second
      → is_whole now ≡ true
      → SameStore dump load end s t
      → (SameStore dump load end
          (ExecutionStore.claim now (scale r) s).0
          (RedisStore.claim dump load retention now r t).0)
        × ((RedisStore.claim dump load retention now r t).1
            ≡ (ExecutionStore.claim now (scale r) s).1)
  unfolding RedisStore.claim
  claim-SameStore now r s t early long whole same =
      let purged = purge-SameStore now s t early same in
      rw (claim-eq now (scale r) s) (
        claim_at-SameStore now r (lookup r.execution_id s.executions)
          (lookup r.execution_id (expire_keys now t).executions)
          (record s { replays = keep (is_fresh now) s.replays }) (expire_keys now t) long whole
          purged
          (lookup-SameRows dump load end r.execution_id s.executions (expire_keys now t).executions
            purged.executions))

  complete_at-SameStore :
      (now : ℕ) (r : CompleteRequest) (row : Option Row) (found : Option (Hash × ℕ)) (s : Store)
      (t : RedisStore)
      → end ≤ now + retention * second
      → is_whole now ≡ true
      → Survives dump load (some r.response)
      → SameStore dump load end s t
      → SameRow dump load end row found
      → (SameStore dump load end
          (complete_at now r row s).0
          (complete_script dump load retention now r (hash_at found) t).0)
        × ((complete_script dump load retention now r (hash_at found) t).1
            ≡ (complete_at now r row s).1)
  complete_at-SameStore now r none none s t long whole v same sr = ground arith
  complete_at-SameStore now r (some row) (some (h, n)) s t long whole v same sr = ground (
    arith,
    leb-int_seconds row.lease_until now,
    insert-SameRows dump load end r.execution_id (completed_row r.response row)
        (completed_hash dump load r.response h) (now + retention * second) s.executions
        t.executions,
  )
  complete_at-SameStore now r none (some y) s t long whole v same sr = elim sr [ ]
  complete_at-SameStore now r (some x) none s t long whole v same sr = elim sr [ ]

  expire-SameStore :
      (now : ℕ) (s : Store) (t : RedisStore)
      → now < end
      → SameStore dump load end s t
      → SameStore dump load end s (expire_executions now t)
  unfolding expire_executions
  expire-SameStore now s t early same = record {
    replays = same.replays;
    executions = keep-SameRows dump load end now s.executions t.executions early same.executions;
  }

  pub complete-SameStore :
      (now : ℕ) (r : CompleteRequest) (s : Store) (t : RedisStore)
      → now < end
      → end ≤ now + retention * second
      → is_whole now ≡ true
      → Survives dump load (some r.response)
      → SameStore dump load end s t
      → (SameStore dump load end
          (ExecutionStore.complete now r s).0
          (RedisStore.complete dump load retention now r t).0)
        × ((RedisStore.complete dump load retention now r t).1
            ≡ (ExecutionStore.complete now r s).1)
  unfolding RedisStore.complete
  complete-SameStore now r s t early long whole v same =
      let expired = expire-SameStore now s t early same in
      rw (complete-eq now r s) (
        complete_at-SameStore now r (lookup r.execution_id s.executions)
          (lookup r.execution_id (expire_executions now t).executions) s (expire_executions now t)
          long whole v expired
          (lookup-SameRows dump load end r.execution_id s.executions
            (expire_executions now t).executions expired.executions))

-- ===== src/Sandbox/RedisStore.antt =====
-- `RedisExecutionStateStore` of backend/app/sandbox/execution_store.py with its two Lua scripts. Redis
-- runs a script as one step. The keys `replay:…` and `execution:…` are two dicts; a key whose time
-- has come is gone before the next script that reads keys of its kind. The server's clock is the
-- caller's. A time is in microseconds; a lease is in whole seconds, from `int(time.time())`. A response is kept as text: `dump` and `load` are pydantic's, and parameters.
pub mod Agreement
pub mod Refinement
pub mod Equivalence
mod Examples
use text.Mathlib.Text.{◌==◌ as str_eq}
use Prim.Native.Nat.{◌/◌}
use code_mate.Prelude.{
  ℕ, ◌+◌, ◌*◌, String, Bool, true, false, not, ◌&&◌, ◌||◌, Option, none, some, [], max, ltb, leb,
  ◌==◌, if◌then◌else◌,
}
use code_mate.Dict.{Dict, lookup, insert, keep}
use code_mate.Sandbox.ExecutionStore.{
  ExecutionResponse, ExecutionClaim, ClaimRequest, CompleteRequest, acquired, cached, in_progress,
  conflict, replayed, RowState, running, completed, is_running, replied,
}

-- The hash of an execution: the fields that have been set.
pub record Hash : Type 0 where
  pub request_hash : Option String
  pub state : Option RowState
  pub owner : Option String
  pub lease_until : Option ℕ
  pub attempt : Option ℕ
  pub response : Option String

-- Every value has the time at which its key expires.
pub record RedisStore : Type 0 where
  pub replays : Dict (String × ℕ)
  pub executions : Dict (Hash × ℕ)

abbrev pub second : ℕ
second = 1000000

-- `int(time.time())`
abbrev pub int_seconds : ℕ → ℕ
int_seconds time = time / second

abbrev pub empty_redis : RedisStore
empty_redis = record { replays = []; executions = [] }

abbrev pub empty_hash : Hash
empty_hash = record {
  request_hash = none;
  state = none;
  owner = none;
  lease_until = none;
  attempt = none;
  response = none;
}

abbrev pub is_alive {ℓ} : {A : Type ℓ} → ℕ → A × ℕ → Bool
is_alive now (v, expiry) = ltb now expiry

-- The store as a script at a time finds it.
unfoldable pub expire_executions : ℕ → RedisStore → RedisStore
expire_executions now t = record t { executions = keep (is_alive now) t.executions }

unfoldable pub expire_keys : ℕ → RedisStore → RedisStore
expire_keys now t = record {
  replays = keep (is_alive now) t.replays;
  executions = keep (is_alive now) t.executions;
}

-- What HGET reads its fields from: a missing key is an empty hash.
abbrev pub hash_at : Option (Hash × ℕ) → Hash
hash_at none = empty_hash
hash_at (some (h, expiry)) = h

-- `HGET … or '0'`
abbrev pub or_zero : Option ℕ → ℕ
or_zero none = 0
or_zero (some n) = n

-- `state == 'running'`
abbrev pub is_running_state : Option RowState → Bool
is_running_state none = false
is_running_state (some s) = is_running s

-- `state == 'completed'`
abbrev pub is_completed_state : Option RowState → Bool
is_completed_state none = false
is_completed_state (some s) = not (is_running s)

-- `value ~= argument`, for a text or nil.
abbrev pub differs : Option String → String → Bool
differs none s = true
differs (some t) s = not (str_eq t s)

-- `request_hash and request_hash ~= ARGV[1]`
abbrev pub conflicts : Option String → String → Bool
conflicts none s = false
conflicts (some t) s = not (str_eq t s)

-- `HGET attempt ~= ARGV[3]`
abbrev pub is_attempt : Option ℕ → ℕ → Bool
is_attempt none n = false
is_attempt (some m) n = m == n

-- The hash, at a time in seconds, after the HINCRBY and the HSET of a claim.
abbrev pub leased_hash : ℕ → ClaimRequest → Hash → Hash
leased_hash now r h = record h {
  attempt = some (or_zero h.attempt + 1);
  request_hash = some r.request_hash;
  state = some running;
  owner = some r.owner;
  lease_until = some (now + r.lease_seconds);
}

module _ (dump : ExecutionResponse → String) (load : String → ExecutionResponse) where
  -- `model_validate(json.loads(payload)) if payload else None`, of `HGET response or ''`.
  abbrev pub payload : Option String → Option ExecutionResponse
  payload none = none
  payload (some text) = if str_eq text "" then none else some (load text)

  -- CLAIM_SCRIPT from its SET on.
  unfoldable pub lease_script :
      ℕ → ℕ → ClaimRequest → Hash → RedisStore → RedisStore × ExecutionClaim
  lease_script time retention r h t =
      let now = int_seconds time in
      let recorded = record t {
        replays =
            insert r.assertion_jti (r.execution_id, time + max 1 r.assertion_ttl * second)
              t.replays;
      } in
      if is_running_state h.state && ltb now (or_zero h.lease_until)
      then (recorded, replied in_progress (or_zero h.attempt))
      else (
        record recorded {
          executions =
              insert r.execution_id (leased_hash now r h, time + retention * second)
                recorded.executions;
        },
        replied acquired (or_zero h.attempt + 1),
      )

  -- CLAIM_SCRIPT from its GET on.
  unfoldable pub replay_script :
      ℕ → ℕ → ClaimRequest → Hash → RedisStore → RedisStore × ExecutionClaim
  unfolding lease_script
  replay_script time retention r h t = elim (lookup r.assertion_jti t.replays) [
    | none ↦ lease_script time retention r h t
    | some (execution_id, expiry) ↦
        if str_eq execution_id r.execution_id && is_running_state h.state
        then (t, replied in_progress (or_zero h.attempt))
        else (t, replied replayed 0)
  ]

  -- CLAIM_SCRIPT on the hash that it reads.
  unfoldable pub claim_script :
      ℕ → ℕ → ClaimRequest → Hash → RedisStore → RedisStore × ExecutionClaim
  unfolding replay_script
  claim_script time retention r h t =
      if conflicts h.request_hash r.request_hash
      then (t, replied conflict 0)
      else if is_completed_state h.state
      then (
        t,
        record { status = cached; response = payload h.response; attempt = or_zero h.attempt },
      )
      else replay_script time retention r h t

  -- `RedisExecutionStateStore.claim`
  unfoldable pub claim : ℕ → ℕ → ClaimRequest → RedisStore → RedisStore × ExecutionClaim
  unfolding claim_script expire_keys
  claim retention time r store =
      let t = expire_keys time store in
      claim_script time retention r (hash_at (lookup r.execution_id t.executions)) t

  -- The tests of COMPLETE_SCRIPT.
  abbrev pub loses : ℕ → CompleteRequest → Hash → Bool
  loses now r h =
      differs h.request_hash r.request_hash
      || differs h.owner r.owner
      || not (is_attempt h.attempt r.attempt)
      || not (is_running_state h.state)
      || leb (or_zero h.lease_until) now

  abbrev pub completed_hash : ExecutionResponse → Hash → Hash
  completed_hash response h = record h {
    state = some completed;
    response = some (dump response);
    lease_until = some 0;
  }

  -- COMPLETE_SCRIPT on the hash that it reads.
  abbrev pub complete_script : ℕ → ℕ → CompleteRequest → Hash → RedisStore → RedisStore × Bool
  complete_script retention time r h t = if loses (int_seconds time) r h then (t, false) else (
    record t {
      executions =
          insert r.execution_id (completed_hash r.response h, time + retention * second)
            t.executions;
    },
    true,
  )

  -- `RedisExecutionStateStore.complete`
  unfoldable pub complete : ℕ → ℕ → CompleteRequest → RedisStore → RedisStore × Bool
  unfolding expire_executions
  complete retention time r store =
      let t = expire_executions time store in
      complete_script retention time r (hash_at (lookup r.execution_id t.executions)) t

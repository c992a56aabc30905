-- ===== src/Core/ReplayCache.antt =====
-- The nonces of proxy identities: backend/app/core/replay_cache.py. The store in memory is a dict of
-- nonces with the times at which they expire, and Redis a dict of keys with theirs; a call is one
-- step, under the lock of the store or as one command of Redis.
pub mod Once
mod Examples
use code_mate.Dict.{insert, lookup, keep, Dict}
use Prim.Native.String.{◌++◌ as str_append}
use code_mate.Prelude.{
  ◌+◌, true, false, some, none, max, not, is_some, Option, if◌then◌else◌, Bool, ltb, String, ℕ, ◌≡◌,
}

abbrev pub Nonces : Type 0
Nonces = Dict ℕ

-- `_prune`
unfoldable pub prune : ℕ → Nonces → Nonces
unfolding keep
prune now nonces = keep (ltb now) nonces

-- `InMemoryReplayNonceStore.consume`
unfoldable pub consume : ℕ → String → ℕ → Nonces → Bool × Nonces
unfolding prune
consume now nonce ttl_seconds nonces =
    let pruned = prune now nonces in
    if is_some (lookup nonce pruned)
    then (false, pruned)
    else (true, insert nonce (now + ttl_seconds) pruned)

-- `consume_redis_nonce`: whether the key was set, or None where `ReplayNonceStoreUnavailable` is
-- raised. Redis drops the keys whose time is over; `sha256` is hashlib's.
unfoldable pub consume_redis_nonce :
    (String → String) → Bool → ℕ → String → ℕ → Nonces → Option Bool × Nonces
unfolding prune
consume_redis_nonce sha256 answers now nonce ttl_seconds keys =
    let alive = prune now keys in
    let key = str_append "codemate:proxy-identity-nonce:" (sha256 nonce) in
    if not answers
    then (none, keys)
    else if is_some (lookup key alive)
    then (some false, alive)
    else (some true, insert key (now + ttl_seconds) alive)

-- The two stores of the program.
pub record Stores : Type 0 where
  pub memory : Nonces
  pub redis : Nonces

-- `consume_proxy_identity_nonce`; `is_redis` is whether the configured store is `redis`, every other
-- text falling back to the memory.
unfoldable pub consume_proxy_identity_nonce :
    (String → String) → Bool → Bool → ℕ → String → ℕ → Stores → Option Bool × Stores
unfolding consume consume_redis_nonce
consume_proxy_identity_nonce sha256 is_redis answers now nonce ttl_seconds s =
    let ttl = max 1 ttl_seconds in
    let in_redis = consume_redis_nonce sha256 answers now nonce ttl s.redis in
    let in_memory = consume now nonce ttl s.memory in
    if is_redis
    then (in_redis.0, record s { redis = in_redis.1 })
    else (some in_memory.0, record s { memory = in_memory.1 })

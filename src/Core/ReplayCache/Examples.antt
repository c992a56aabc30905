-- ===== src/Core/ReplayCache/Examples.antt =====
-- A nonce that is used twice within its time to live, with Redis.
use code_mate.Dict.{keep, lookup, insert}
use code_mate.Core.ReplayCache.Once.{nonce_used_once, run, Use}
use code_mate.Core.ReplayCache.{
  some, prune, true, consume_redis_nonce, consume_proxy_identity_nonce, Stores,
}
use code_mate.Prelude.{refl, arith, ◌≢◌, ◌∷◌, [], ℕ, String, ◌≡◌}

abbrev same : String → String
same s = s

abbrev use_at : ℕ → String → Use
use_at now nonce = record { now = now; nonce = nonce; ttl_seconds = 60; answers = true }

abbrev empty_stores : Stores
empty_stores = record { memory = []; redis = [] }

first_accepted :
    (consume_proxy_identity_nonce same true true 100 "n1" 60 empty_stores).0 ≡ some true
unfolding consume_proxy_identity_nonce consume_redis_nonce prune keep lookup insert
first_accepted = refl

nonce_used_once_example :
    (consume_proxy_identity_nonce same true true 150 "n1" 60 (
      run same true
        (use_at 120 "n2" ∷ [])
        (consume_proxy_identity_nonce same true true 100 "n1" 60 empty_stores).1)).0
    ≢ some true
nonce_used_once_example =
    nonce_used_once same true (use_at 100 "n1") empty_stores first_accepted (use_at 120 "n2" ∷ [])
      (omega arith, tt) 150 60 true (omega arith)

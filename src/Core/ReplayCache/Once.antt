-- ===== src/Core/ReplayCache/Once.antt =====
-- A nonce that has been consumed is refused until it expires.
use text.Mathlib.TextEquality.{eq_iff}
use code_mate.Dict.{lookup-insert_self, lookup-insert, lookup-keep}
use code_mate.Lists.{All}
use code_mate.Core.ReplayCache.{
  max, ltb, insert, consume, false, true, consume_redis_nonce, is_some, prune, some, lookup, Nonces,
  str_append, Stores, consume_proxy_identity_nonce,
}
use code_mate.Prelude.{◌≢◌, ◌+◌, arith, ◌<◌, [], ◌∷◌, List, if◌then◌else◌, Bool, String, ℕ, ◌≡◌}

-- A call of `consume_proxy_identity_nonce`, and whether Redis answers it.
pub record Use : Type 0 where
  pub now : ℕ
  pub nonce : String
  pub ttl_seconds : ℕ
  pub answers : Bool

module _ (sha256 : String → String) (is_redis : Bool) where
  unfoldable pub run : List Use → Stores → Stores
  unfolding consume_proxy_identity_nonce
  run [] s = s
  run (u ∷ us) s =
      run us
        (consume_proxy_identity_nonce sha256 is_redis u.answers u.now u.nonce u.ttl_seconds s).1

  abbrev key_of : String → String
  key_of nonce =
      if is_redis then str_append "codemate:proxy-identity-nonce:" (sha256 nonce) else nonce

  abbrev store_of : Stores → Nonces
  store_of s = if is_redis then s.redis else s.memory

  -- The store has the nonce until the time.
  abbrev Has : String → ℕ → Stores → Type 0
  Has nonce until s = lookup (key_of nonce) (store_of s) ≡ some until

kept :
    (now until : ℕ) (k : String) (d : Nonces)
    → now < until
    → lookup k d ≡ some until
    → lookup k (prune now d) ≡ some until
unfolding prune
kept now until k d early h = lookup-keep (ltb now) k until d h (ground arith)

-- A key is written only where there is none, so that one that is there stays.
written :
    (k j : String) (until v : ℕ) (d : Nonces)
    → is_some (lookup j d) ≡ false
    → lookup k d ≡ some until
    → lookup k (insert j v d) ≡ some until
written k j until v d absent h = ground (arith, h, lookup-insert j k v d, eq_iff j k)

module _ (sha256 : String → String) where
  step-Has :
      (is_redis : Bool) (u : Use) (s : Stores) (nonce : String) (until : ℕ)
      → u.now < until
      → Has sha256 is_redis nonce until s
      → Has sha256 is_redis nonce until
          (consume_proxy_identity_nonce sha256 is_redis u.answers u.now u.nonce u.ttl_seconds s).1
  unfolding consume_proxy_identity_nonce consume_redis_nonce consume
  step-Has true u s nonce until early h =
      let k = key_of sha256 true nonce in
      let j = key_of sha256 true u.nonce in
      let alive = kept u.now until k s.redis early h in
      ground
        (arith, h, alive, written k j until (u.now + max 1 u.ttl_seconds) (prune u.now s.redis))
  step-Has false u s nonce until early h =
      let alive = kept u.now until nonce s.memory early h in
      ground (
        arith,
        h,
        alive,
        written nonce u.nonce until (u.now + max 1 u.ttl_seconds) (prune u.now s.memory),
      )

  run-Has :
      (is_redis : Bool) (us : List Use) (s : Stores) (nonce : String) (until : ℕ)
      → All (λ u. u.now < until) us
      → Has sha256 is_redis nonce until s
      → Has sha256 is_redis nonce until (run sha256 is_redis us s)
  unfolding run
  run-Has is_redis [] s nonce until early h = h
  run-Has is_redis (u ∷ us) s nonce until (first, early) h =
      run-Has is_redis us
        (consume_proxy_identity_nonce sha256 is_redis u.answers u.now u.nonce u.ttl_seconds s).1
        nonce until early (step-Has is_redis u s nonce until first h)

  consumed-Has :
      (is_redis : Bool) (u : Use) (s : Stores)
      → (consume_proxy_identity_nonce sha256 is_redis u.answers u.now u.nonce u.ttl_seconds s).0
        ≡ some true
      → Has sha256 is_redis u.nonce
          (u.now + max 1 u.ttl_seconds)
          (consume_proxy_identity_nonce sha256 is_redis u.answers u.now u.nonce u.ttl_seconds s).1
  unfolding consume_proxy_identity_nonce consume_redis_nonce consume
  consumed-Has true u s h = ground (
    arith,
    h,
    lookup-insert_self (key_of sha256 true u.nonce) (u.now + max 1 u.ttl_seconds)
        (prune u.now s.redis),
  )
  consumed-Has false u s h =
      ground
        (arith, h, lookup-insert_self u.nonce (u.now + max 1 u.ttl_seconds) (prune u.now s.memory))

  refused :
      (is_redis : Bool) (u : Use) (s : Stores) (until : ℕ)
      → u.now < until
      → Has sha256 is_redis u.nonce until s
      → (consume_proxy_identity_nonce sha256 is_redis u.answers u.now u.nonce u.ttl_seconds s).0
        ≢ some true
  unfolding consume_proxy_identity_nonce consume_redis_nonce consume
  refused true u s until early h =
      ground (arith, h, kept u.now until (key_of sha256 true u.nonce) s.redis early h)
  refused false u s until early h = ground (arith, h, kept u.now until u.nonce s.memory early h)

  -- A nonce that has been accepted is not accepted again, by the store in memory or by Redis, before
  -- its time to live is over, whatever other nonces are consumed in between and whether or not Redis
  -- answers; every call in between comes before that time.
  pub nonce_used_once :
      (is_redis : Bool) (u : Use) (s : Stores)
      → (consume_proxy_identity_nonce sha256 is_redis u.answers u.now u.nonce u.ttl_seconds s).0
        ≡ some true
      → (us : List Use) → All (λ v. v.now < u.now + max 1 u.ttl_seconds) us
      → (now ttl_seconds : ℕ) (answers : Bool) → now < u.now + max 1 u.ttl_seconds
      → (consume_proxy_identity_nonce sha256 is_redis answers now u.nonce ttl_seconds (
          run sha256 is_redis us
            (consume_proxy_identity_nonce sha256 is_redis u.answers u.now u.nonce u.ttl_seconds
              s).1)).0
        ≢ some true
  nonce_used_once is_redis u s accepted us between now ttl_seconds answers early =
      let s1 =
        (consume_proxy_identity_nonce sha256 is_redis u.answers u.now u.nonce u.ttl_seconds s).1 in
      let until = u.now + max 1 u.ttl_seconds in
      refused is_redis
        (record { now = now; nonce = u.nonce; ttl_seconds = ttl_seconds; answers = answers })
        (run sha256 is_redis us s1) until early
        (run-Has is_redis us s1 u.nonce until between (consumed-Has is_redis u s accepted))

-- ===== src/Sandbox/RedisStore/Equivalence.antt =====
-- The two stores answer every sequence of calls alike.
use code_mate.Prelude.{
  ℕ, ◌+◌, ◌*◌, true, ◌≤◌, ◌<◌, ◌≡◌, refl, String, Bool, some, List, [], ◌∷◌, arith,
}
use code_mate.Sandbox.ExecutionStore
use code_mate.Sandbox.ExecutionStore.{Store, ExecutionResponse, ExecutionClaim, empty_store}
use code_mate.Sandbox.ExecutionStore.Traces.{Call, claims, completes, AllAt}
use code_mate.Sandbox.RedisStore
use code_mate.Sandbox.RedisStore.{RedisStore, empty_redis, second}
use code_mate.Sandbox.RedisStore.Agreement.{is_whole, SameStore, Survives}
use code_mate.Sandbox.RedisStore.Refinement.{scale, claim-SameStore, complete-SameStore}

-- What a call is answered.
pub data Answer : Type 0 where
  claimed : ExecutionClaim → Answer
  committed : Bool → Answer

-- The answers of the memory store.
abbrev pub answers : List Call → Store → List Answer
answers [] s = []
answers (claims now r ∷ cs) s =
    claimed (ExecutionStore.claim now r s).1 ∷ answers cs (ExecutionStore.claim now r s).0
answers (completes now r ∷ cs) s =
    committed (ExecutionStore.complete now r s).1 ∷ answers cs (ExecutionStore.complete now r s).0

abbrev pub scale_all : List Call → List Call
scale_all [] = []
scale_all (claims now r ∷ cs) = claims now (scale r) ∷ scale_all cs
scale_all (completes now r ∷ cs) = completes now r ∷ scale_all cs

module _ (dump : ExecutionResponse → String) (load : String → ExecutionResponse) where
  -- Every response that a call commits is read back from its text as it was.
  abbrev pub AllSurvive : List Call → Type 0
  AllSurvive [] = Unit
  AllSurvive (claims now r ∷ cs) = AllSurvive cs
  AllSurvive (completes now r ∷ cs) = Survives dump load (some r.response) × AllSurvive cs

module _ (dump : ExecutionResponse → String) (load : String → ExecutionResponse)
    (retention : ℕ) where
  -- The answers of the Redis store.
  abbrev pub redis_answers : List Call → RedisStore → List Answer
  redis_answers [] t = []
  redis_answers (claims now r ∷ cs) t =
      claimed (RedisStore.claim dump load retention now r t).1
      ∷ redis_answers cs (RedisStore.claim dump load retention now r t).0
  redis_answers (completes now r ∷ cs) t =
      committed (RedisStore.complete dump load retention now r t).1
      ∷ redis_answers cs (RedisStore.complete dump load retention now r t).0

module _ (dump : ExecutionResponse → String) (load : String → ExecutionResponse)
    (retention start : ℕ) where
  answers-SameStore :
      (cs : List Call) (s : Store) (t : RedisStore)
      → AllAt (λ now. (is_whole now ≡ true) × (start ≤ now) × (now < start + retention * second)) cs
      → AllSurvive dump load cs
      → SameStore dump load (start + retention * second) s t
      → redis_answers dump load retention cs t ≡ answers (scale_all cs) s
  answers-SameStore [] s t window v same = refl
  answers-SameStore (claims now r ∷ cs) s t ((whole, late, early), rest) v same =
      let (after, answer) =
        claim-SameStore dump load retention (start + retention * second) now r s t early
          (omega arith) whole same in
      ground (
        arith,
        answer,
        answers-SameStore cs (ExecutionStore.claim now (scale r) s).0
            (RedisStore.claim dump load retention now r t).0 rest v after,
      )
  answers-SameStore (completes now r ∷ cs) s t ((whole, late, early), rest) v same =
      let (after, answer) =
        complete-SameStore dump load retention (start + retention * second) now r s t early
          (omega arith) whole v.0 same in
      ground (
        arith,
        answer,
        answers-SameStore cs (ExecutionStore.complete now r s).0
            (RedisStore.complete dump load retention now r t).0 rest v.1 after,
      )

  -- The Redis store is the memory store: within the retention time, any calls of any owners at whole
  -- seconds, from an empty store on, get the same answers from both, claims and completions alike,
  -- where the memory store is given one microsecond less for each assertion. The condition is that
  -- the committed responses are read back from their texts as they were.
  pub stores_equivalent :
      (cs : List Call)
      → AllAt (λ now. (is_whole now ≡ true) × (start ≤ now) × (now < start + retention * second)) cs
      → AllSurvive dump load cs
      → redis_answers dump load retention cs empty_redis ≡ answers (scale_all cs) empty_store
  stores_equivalent cs window v =
      answers-SameStore cs empty_store empty_redis window v
        (record { replays = tt; executions = tt })

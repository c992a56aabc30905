-- ===== src/Sandbox/RedisStore/Examples.antt =====
-- Two workers at one execution, on both stores.
use code_mate.Prelude.{◌*◌, ◌+◌, ◌≤◌, ◌<◌, ◌≡◌, refl, String, true, false, List, [], ◌∷◌, arith}
use code_mate.Json.{pos}
use code_mate.Sandbox.ExecutionStore.{ClaimRequest, ExecutionResponse, kubernetes, empty_store}
use code_mate.Sandbox.ExecutionStore.Traces.{AllAt, Call, claims, completes}
use code_mate.Sandbox.RedisStore.{empty_redis, second}
use code_mate.Sandbox.RedisStore.Agreement.{is_whole}
use code_mate.Sandbox.RedisStore.Equivalence.{answers, scale_all, redis_answers, stores_equivalent}

abbrev request : ClaimRequest
request = record {
  execution_id = "e1";
  request_hash = "h1";
  assertion_jti = "j1";
  assertion_ttl = 60;
  owner = "plane-a";
  lease_seconds = 40;
}

abbrev response : ExecutionResponse
response = record {
  execution_id = "e1";
  backend = kubernetes;
  passed = true;
  exit_code = pos 0;
  stdout = "";
  stderr = "";
  timed_out = false;
  archive_sha256 = "a1";
  workload_subject = "broker";
  attestation = [];
}

-- Stand-ins for pydantic on the one response of the calls.
abbrev dump : ExecutionResponse → String
dump r = "{}"

abbrev load : String → ExecutionResponse
load text = response

-- A claim, its replay, a claim of the next attempt, and both completions.
abbrev calls : List Call
calls =
    claims (100 * second) request
    ∷ claims (110 * second) request
    ∷ claims (145 * second) (record request { assertion_jti = "j2"; owner = "plane-b" })
    ∷ completes (150 * second) (record {
      execution_id = "e1";
      request_hash = "h1";
      owner = "plane-a";
      attempt = 1;
      response = response;
    })
    ∷ completes (155 * second) (record {
      execution_id = "e1";
      request_hash = "h1";
      owner = "plane-b";
      attempt = 2;
      response = response;
    })
    ∷ claims (170 * second) request
    ∷ []

in_window :
    AllAt
      (λ now. (is_whole now ≡ true) × (100 * second ≤ now) × (now < 100 * second + 86400 * second))
      calls
in_window = ground arith

stores_equivalent_example :
    redis_answers dump load 86400 calls empty_redis ≡ answers (scale_all calls) empty_store
stores_equivalent_example =
    stores_equivalent dump load 86400 (100 * second) calls in_window (refl, (refl, tt))

-- ===== src/Sandbox/Examples.antt =====
-- Two workers at one execution, and the theorems about the store at their calls.
use code_mate.Prelude.{◌≡◌, ◌≢◌, refl, true, false, List, [], ◌∷◌, arith}
use code_mate.Json.{pos}
use code_mate.Dict.{lookup, insert, keep}
use code_mate.Sandbox.ExecutionStore.{
  ClaimRequest, CompleteRequest, ExecutionResponse, kubernetes, empty_store, acquired, claim,
  complete,
}
use code_mate.Sandbox.ExecutionStore.Traces.{Call, claims, run}
use code_mate.Sandbox.ExecutionStore.Exclusion.{lease_excludes}

abbrev first_claim : ClaimRequest
first_claim = record {
  execution_id = "e1";
  request_hash = "h1";
  assertion_jti = "j1";
  assertion_ttl = 60;
  owner = "plane-a";
  lease_seconds = 40;
}

abbrev second_claim : ClaimRequest
second_claim = record first_claim { assertion_jti = "j2"; owner = "plane-b" }

abbrev response : ExecutionResponse
response = record {
  execution_id = "e1";
  backend = kubernetes;
  passed = true;
  exit_code = pos 0;
  stdout = "";
  stderr = "";
  timed_out = false;
  archive_sha256 = "a1";
  workload_subject = "broker";
  attestation = [];
}

abbrev completion : CompleteRequest
completion = record {
  execution_id = "e1";
  request_hash = "h1";
  owner = "plane-a";
  attempt = 1;
  response = response;
}

-- The other worker asks while the lease lasts, and again when it has expired.
abbrev busy : List Call
busy = claims 110 second_claim ∷ []

abbrev expired : List Call
expired = claims 150 second_claim ∷ []

completed_in_time : (complete 120 completion (claim 100 first_claim empty_store).0).1 ≡ true
unfolding claim complete lookup insert keep
completed_in_time = refl

first_acquires : (claim 100 first_claim empty_store).1.status ≡ acquired
unfolding claim lookup insert keep
first_acquires = refl

lease_excludes_example :
    (claim 139 second_claim (run busy (claim 100 first_claim empty_store).0)).1.status ≢ acquired
lease_excludes_example =
    lease_excludes 100 first_claim empty_store first_acquires busy 139 second_claim (omega arith)
      (omega arith) refl

second_acquires : (claim 150 second_claim (claim 100 first_claim empty_store).0).1.status ≡ acquired
unfolding claim lookup insert keep
second_acquires = refl

second_attempt : (claim 150 second_claim (claim 100 first_claim empty_store).0).1.attempt ≡ 2
unfolding claim lookup insert keep
second_attempt = refl

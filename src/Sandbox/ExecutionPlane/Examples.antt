-- ===== src/Sandbox/ExecutionPlane/Examples.antt =====
-- One request to the execution plane, and the theorems about the handler at it.
use code_mate.Prelude.{ℕ, ◌≡◌, refl, String, true, false, Option, none, some, [], ◌∷◌}
use code_mate.Json.{Json, Fields, pos, num, str, end, field, get, get_default}
use code_mate.Dict.{lookup, insert, keep}
use code_mate.Sandbox.WorkloadIdentity.{Scope, size, verify_claims, verify_assertion}
use code_mate.Sandbox.ExecutionStore.{
  kubernetes, ExecutionResponse, empty_store, lease, check_replay, claim, complete,
}
use code_mate.Sandbox.ExecutionPlane.Request.{
  ExecutionRequest, Settings, World, Times, responded, update,
}
use code_mate.Sandbox.ExecutionPlane.Execute.{
  build_response, commit, attest_and_commit, run_claimed, after_claim, execute,
}
use code_mate.Sandbox.ExecutionPlane.Safety.{IsAuthorized, runs_only_authorized}
use code_mate.Sandbox.ExecutionPlane.Commit.{stored, responses_committed}

-- Stand-ins for Python's `str`, `int`, json, hashlib and the signature check.
abbrev show : ℕ → String
show n = "1"

abbrev print : Json → String
print (str s) = s
print v = "value"

abbrev to_int : Json → ℕ
to_int (num (pos n)) = n
to_int v = 0

abbrev sha256 : String → String
sha256 s = s

abbrev claims : Fields
claims = field "iss" (str "codemate") (
    field "sub" (str "broker") (
      field "aud" (str "plane") (
        field "iat" (num (pos 100)) (
          field "exp" (num (pos 160))
            (field "jti" (str "j1") (field "request_hash" (str "value") end))))))

abbrev decode : String → Option (Fields × Fields)
decode token = some (field "alg" (str "EdDSA") (field "typ" (str "JWT") end), claims)

abbrev scope : Scope
scope = record {
  issuer = "codemate";
  subject = "broker";
  audience = "plane";
  clock_skew_seconds = 5;
}

abbrev settings : Settings
settings = record {
  scope = scope;
  node_image = "node";
  python_image = "python";
  allowed_test_commands = "pytest" ∷ [];
  lease_grace_seconds = 30;
  backend = kubernetes;
  output_max_chars = 10;
  instance_id = "plane-a";
  hostname = "host";
}

abbrev request : ExecutionRequest
request = record {
  execution_id = "e1";
  archive_base64 = "";
  archive_sha256 = "a1";
  command = "pytest";
  shell_command = "pip install . && pytest";
  image = "python";
  requested_runtime = "gvisor";
  timeout_seconds = 60;
}

abbrev world : World
world = record {
  is_extracted = true;
  expected_shell = "pip install . && pytest";
  supply_chain = some [];
  host_attestation = none;
  result = record {
    passed = true;
    exit_code = pos 0;
    stdout = "1 passed";
    stderr = "";
    timed_out = false;
    execution_node = some "node-1";
  };
  node_attestation = some [];
}

abbrev times : Times
times = record { verified = 110; current = 110; claimed = 110; committed = 130 }

abbrev answer : ExecutionResponse
answer = build_response show print settings request world claims 1 []

did_run :
    (execute show print to_int print sha256 decode settings times [] request "token" world
      empty_store).ran
    ≡ true
unfolding execute verify_assertion verify_claims size get get_default claim check_replay lease
    lookup insert keep after_claim run_claimed attest_and_commit update commit complete
did_run = refl

did_answer :
    (execute show print to_int print sha256 decode settings times [] request "token" world
      empty_store).reply
    ≡ responded answer
unfolding execute verify_assertion verify_claims size get get_default claim check_replay lease
    lookup insert keep after_claim run_claimed attest_and_commit update commit complete
did_answer = refl

runs_only_authorized_example :
    IsAuthorized show print to_int print sha256 decode settings times [] request "token" world
      empty_store
unfolding lookup
runs_only_authorized_example =
    runs_only_authorized show print to_int print sha256 decode settings times [] request "token"
      world empty_store refl did_run

responses_committed_example :
    stored "e1"
      (execute show print to_int print sha256 decode settings times [] request "token" world
        empty_store).store
    ≡ some answer
responses_committed_example =
    responses_committed show print to_int print sha256 decode settings times [] request world
      "token" empty_store answer did_answer

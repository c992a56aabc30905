-- ===== src/Sandbox/ExecutionPlane/Execute.antt =====
-- The handler `execute`, below `_bearer`, on the memory store, which raises nothing. Other requests
-- can reach the store between the claim and the commit.
use text.Mathlib.Text.{◌==◌ as str_eq}
use code_mate.Prelude.{
  ℕ, ◌+◌, ◌-◌, String, true, false, not, Option, none, some, List, max, if◌then◌else◌,
}
use code_mate.Text.{take}
use code_mate.Dict.{Dict, insert}
use code_mate.Json.{Json, Fields, get}
use code_mate.Sandbox.WorkloadIdentity.{accepted, refused, verify_assertion}
use code_mate.Sandbox.ExecutionStore.{
  Store, Backend, firecracker, kubernetes, ExecutionResponse, ExecutionClaim, ClaimRequest,
  ClaimStatus, acquired, cached, in_progress, conflict, replayed, claim, complete,
}
use code_mate.Sandbox.ExecutionStore.Traces.{Call, run}
use code_mate.Sandbox.ExecutionPlane.Request.{
  ExecutionRequest, Settings, World, Times, responded, http_error, Handled, fail, is_allowlisted,
  update, gather, node_or_host, is_reported, binding_hash,
}

module _ (show : ℕ → String) (print : Json → String) where
  abbrev pub build_response :
      Settings → ExecutionRequest → World → Fields → ℕ → Dict String → ExecutionResponse
  build_response c q w claims attempt evidence = record {
    execution_id = q.execution_id;
    backend = c.backend;
    passed = w.result.passed;
    exit_code = w.result.exit_code;
    stdout = take c.output_max_chars w.result.stdout;
    stderr = take c.output_max_chars w.result.stderr;
    timed_out = w.result.timed_out;
    archive_sha256 = q.archive_sha256;
    workload_subject = print (get "sub" claims);
    attestation = insert "execution_attempt" (show attempt) (
        insert "execution_node" (node_or_host c w.result.execution_node)
          (insert "execution_plane_instance" c.instance_id evidence));
  }

  -- The commit, and what it answers.
  unfoldable pub commit :
      Settings → ℕ → ExecutionRequest → String → ℕ → ExecutionResponse → Store → Handled
  unfolding complete
  commit c now q request_hash attempt response s =
      let (t, committed) =
        complete now
          (record {
            execution_id = q.execution_id;
            request_hash = request_hash;
            owner = c.instance_id;
            attempt = attempt;
            response = response;
          })
          s in
      if committed
      then record { store = t; ran = true; reply = responded response }
      else record { store = t; ran = true; reply = http_error 409 }

  unfoldable pub attest_and_commit :
      Backend
      → Settings
      → ℕ
      → ExecutionRequest
      → String
      → World
      → Fields
      → ℕ
      → Dict String
      → Store
      → Handled
  unfolding commit
  attest_and_commit firecracker c now q h w claims attempt evidence s =
      commit c now q h attempt (build_response c q w claims attempt evidence) s
  attest_and_commit kubernetes c now q h w claims attempt evidence s =
      if not (is_reported w.result.execution_node)
      then record { store = s; ran = true; reply = http_error 503 }
      else elim w.node_attestation [
        | none ↦ record { store = s; ran = true; reply = http_error 412 }
        | some more ↦
            commit c now q h attempt (build_response c q w claims attempt (update evidence more)) s
      ]

  -- The handler below the claim: it holds the lease of an attempt.
  unfoldable pub run_claimed :
      Settings → ℕ → ExecutionRequest → String → World → Fields → ℕ → Store → Handled
  unfolding commit
  run_claimed c now q h w claims attempt s =
      if not w.is_extracted
      then fail 400 s
      else if not (str_eq q.shell_command w.expected_shell)
      then fail 403 s
      else elim (gather c.backend w) [
        | none ↦ fail 412 s
        | some evidence ↦ attest_and_commit c.backend c now q h w claims attempt evidence s
      ]

  unfoldable pub after_claim :
      ClaimStatus
      → Settings
      → Times
      → List Call
      → ExecutionRequest
      → String
      → World
      → Fields
      → Store × ExecutionClaim
      → Handled
  unfolding run_claimed
  after_claim in_progress c at between q h w claims (s, k) = fail 409 s
  after_claim conflict c at between q h w claims (s, k) = fail 409 s
  after_claim replayed c at between q h w claims (s, k) = fail 401 s
  after_claim acquired c at between q h w claims (s, k) =
      run_claimed c at.committed q h w claims k.attempt (run between s)
  after_claim cached c at between q h w claims (s, k) = elim k.response [
    | some response ↦ record { store = s; ran = false; reply = responded response }
    | none ↦ run_claimed c at.committed q h w claims k.attempt (run between s)
  ]

  abbrev pub claim_request :
      (Json → ℕ) → Settings → ℕ → ExecutionRequest → String → Fields → ClaimRequest
  claim_request to_int c current q h claims = record {
    execution_id = q.execution_id;
    request_hash = h;
    assertion_jti = print (get "jti" claims);
    assertion_ttl = max 1 (to_int (get "exp" claims) - current);
    owner = c.instance_id;
    lease_seconds = q.timeout_seconds + max 10 c.lease_grace_seconds;
  }

module _ (show : ℕ → String) (print : Json → String) (to_int : Json → ℕ) (dumps : Json → String)
    (sha256 : String → String) (decode : String → Option (Fields × Fields)) where
  -- `execute`, below `_bearer`.
  unfoldable pub execute :
      Settings → Times → List Call → ExecutionRequest → String → World → Store → Handled
  unfolding verify_assertion claim run_claimed
  execute c at between q token w s =
      let h = binding_hash dumps sha256 q in
      elim (verify_assertion print to_int decode c.scope at.verified h token) [
        | refused why ↦ fail 401 s
        | accepted claims ↦
            if not (is_allowlisted c q)
            then fail 403 s
            else let (t, k) =
                claim at.claimed (claim_request show print to_int c at.current q h claims) s in
              after_claim show print k.status c at between q h w claims (t, k)
      ]

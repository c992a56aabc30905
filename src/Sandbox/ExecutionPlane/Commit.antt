-- ===== src/Sandbox/ExecutionPlane/Commit.antt =====
-- What a response of the execution plane rests on.
use code_mate.Prelude.{
  ℕ, ◌≡◌, String, true, Option, some, none, List, arith, Option-cases, Bool-cases, inl, inr,
  if◌then◌else◌,
}
use code_mate.Json.{Json, Fields}
use code_mate.Dict.{Dict, lookup, lookup-insert_self}
use code_mate.Sandbox.WorkloadIdentity.{verify_assertion, Identity-cases}
use code_mate.Sandbox.ExecutionStore.{
  ExecutionClaim, Store, Row, Backend, firecracker, kubernetes, ExecutionResponse, ClaimRequest,
  CompleteRequest, cached, is_running, claim, complete, completed_row,
}
use code_mate.Sandbox.ExecutionStore.Steps.{complete-cases}
use code_mate.Sandbox.ExecutionStore.Traces.{Call, run}
use code_mate.Sandbox.ExecutionPlane.Request.{
  ExecutionRequest, Settings, World, Times, responded, update, gather, is_reported, binding_hash,
}
use code_mate.Sandbox.ExecutionPlane.Execute.{
  build_response, commit, attest_and_commit, run_claimed, after_claim, claim_request, execute,
}

-- The response that a row keeps as the result of its execution.
abbrev pub result_of : Option Row → Option ExecutionResponse
result_of none = none
result_of (some row) = if is_running row.state then none else row.response

-- The response that the store keeps as the result of an execution.
abbrev pub stored : String → Store → Option ExecutionResponse
stored execution_id s = result_of (lookup execution_id s.executions)

claim-cached :
    (now : ℕ) (r : ClaimRequest) (s : Store) (response : ExecutionResponse)
    → (claim now r s).1.status ≡ cached
    → (claim now r s).1.response ≡ some response
    → stored r.execution_id (claim now r s).0 ≡ some response
unfolding claim
claim-cached now r s response h e =
    ground (arith, Option-cases (lookup r.execution_id s.executions))

complete-stored :
    (now : ℕ) (r : CompleteRequest) (s : Store)
    → (complete now r s).1 ≡ true
    → stored r.execution_id (complete now r s).0 ≡ some r.response
complete-stored now r s done = elim (complete-cases now r s) [
  | inl lost ↦ ground (arith, lost)
  | inr (row, k) ↦ ground (
    arith,
    k.result,
    lookup-insert_self r.execution_id (completed_row r.response row) s.executions,
  )
]

module _ (show : ℕ → String) (print : Json → String) (c : Settings) (q : ExecutionRequest) where
  commit-stored :
      (now : ℕ) (h : String) (attempt : ℕ) (made : ExecutionResponse) (s : Store)
      (response : ExecutionResponse)
      → (commit show print c now q h attempt made s).reply ≡ responded response
      → stored q.execution_id (commit show print c now q h attempt made s).store ≡ some response
  unfolding commit
  commit-stored now h attempt made s response e = ground (
    arith,
    complete-stored now
        (record {
          execution_id = q.execution_id;
          request_hash = h;
          owner = c.instance_id;
          attempt = attempt;
          response = made;
        })
        s,
  )

  attest_and_commit-stored :
      (b : Backend) (now : ℕ) (h : String) (w : World) (claims : Fields) (attempt : ℕ)
      (evidence : Dict String) (s : Store) (response : ExecutionResponse)
      → (attest_and_commit show print b c now q h w claims attempt evidence s).reply
        ≡ responded response
      → stored q.execution_id
          (attest_and_commit show print b c now q h w claims attempt evidence s).store
        ≡ some response
  unfolding attest_and_commit
  attest_and_commit-stored firecracker now h w claims attempt evidence s response e =
      commit-stored now h attempt _ s response e
  attest_and_commit-stored kubernetes now h w claims attempt evidence s response e =
      elim (Bool-cases (is_reported w.result.execution_node)) [
        | inl named ↦ elim (Option-cases w.node_attestation) [
          | inl absent ↦ ground (arith, named, absent, e)
          | inr (more, present) ↦ ground (
            arith,
            named,
            present,
            e,
            commit-stored now h attempt
                (build_response show print c q w claims attempt (update evidence more)) s response,
          )
        ]
        | inr unnamed ↦ ground (arith, unnamed, e)
      ]

  run_claimed-stored :
      (now : ℕ) (h : String) (w : World) (claims : Fields) (attempt : ℕ) (s : Store)
      (response : ExecutionResponse)
      → (run_claimed show print c now q h w claims attempt s).reply ≡ responded response
      → stored q.execution_id (run_claimed show print c now q h w claims attempt s).store
        ≡ some response
  unfolding run_claimed
  run_claimed-stored now h w claims attempt s response e =
      elim (Option-cases (gather c.backend w)) [
        | inl absent ↦ ground (arith, absent, e)
        | inr (evidence, present) ↦ ground (
          arith,
          present,
          e,
          attest_and_commit-stored c.backend now h w claims attempt evidence s response,
        )
      ]

module _ (show : ℕ → String) (print : Json → String) (to_int : Json → ℕ) (dumps : Json → String)
    (sha256 : String → String) (decode : String → Option (Fields × Fields)) (c : Settings)
    (at : Times) (between : List Call) (q : ExecutionRequest) (w : World) where
  after_claim-stored :
      (h : String) (claims : Fields) (k : ExecutionClaim) (t : Store) (response : ExecutionResponse)
      → (k.status ≡ cached → k.response ≡ some response → stored q.execution_id t ≡ some response)
      → (after_claim show print k.status c at between q h w claims (t, k)).reply
        ≡ responded response
      → stored q.execution_id
          (after_claim show print k.status c at between q h w claims (t, k)).store
        ≡ some response
  unfolding after_claim
  after_claim-stored h claims k t response known e = ground (
    arith,
    known,
    e,
    run_claimed-stored show print c q at.committed h w claims k.attempt (run between t) response,
  )

  -- Every response that is sent is committed: when the handler answers with a response, the store
  -- keeps exactly this response as the result of the execution, whether it was cached or has just
  -- been produced, whatever other requests did to the store while the command ran.
  pub responses_committed :
      (token : String) (s : Store) (response : ExecutionResponse)
      → (execute show print to_int dumps sha256 decode c at between q token w s).reply
        ≡ responded response
      → stored q.execution_id
          (execute show print to_int dumps sha256 decode c at between q token w s).store
        ≡ some response
  unfolding execute
  responses_committed token s response e =
      elim (Identity-cases (
        verify_assertion print to_int decode c.scope at.verified (binding_hash dumps sha256 q)
          token)) [
            | inl (claims, v) ↦
                let h = binding_hash dumps sha256 q in
                let r = claim_request show print to_int c at.current q h claims in
                ground (
                  arith,
                  e,
                  v,
                  after_claim-stored h claims (claim at.claimed r s).1 (claim at.claimed r s).0
                      response (claim-cached at.claimed r s response),
                )
            | inr (why, v) ↦ ground (arith, e, v)
          ]

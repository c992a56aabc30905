-- ===== src/Sandbox/ExecutionPlane/Safety.antt =====
-- What has been checked before a command runs, and what is answered after it ran.
use text.Mathlib.Text.{◌==◌ as str_eq}
use code_mate.Prelude.{
  Bool, none, some, is_some, if◌then◌else◌, ◌+◌, ◌≤◌, ℕ, ◌≡◌, String, true, false, Option, List,
  arith, inl, inr,
}
use code_mate.Json.{Json, Fields}
use code_mate.Sandbox.WorkloadIdentity.{
  Identity-cases, Scope, time_claim, Refusal, accepted, refused, verify_assertion, verify_claims,
  matches,
}
use code_mate.Dict.{lookup}
use code_mate.Sandbox.ExecutionStore.{Store, Row, ClaimRequest, acquired, cached, is_running, claim}
use code_mate.Sandbox.ExecutionStore.Traces.{Call}
use code_mate.Sandbox.ExecutionPlane.Request.{
  ExecutionRequest, Settings, World, Times, is_allowlisted, binding_hash,
}
use code_mate.Sandbox.ExecutionPlane.Execute.{
  claim_request, commit, run_claimed, after_claim, execute,
}

verify_assertion-accepted :
    (print : Json → String) (to_int : Json → ℕ) (decode : String → Option (Fields × Fields))
    (c : Scope) (now : ℕ) (h token : String) {claims : Fields}
    → verify_assertion print to_int decode c now h token ≡ accepted claims
    → (matches print to_int "request_hash" claims h ≡ true)
      × (now ≤ time_claim print to_int "exp" claims + c.clock_skew_seconds)
unfolding verify_assertion verify_claims
verify_assertion-accepted print to_int decode c now h token e = ground (arith, e)

-- A row that is completed has a response.
abbrev pub has_result : Option Row → Bool
has_result none = true
has_result (some row) = if is_running row.state then true else is_some row.response

claim-response :
    (now : ℕ) (r : ClaimRequest) (s : Store)
    → has_result (lookup r.execution_id s.executions) ≡ true
    → (claim now r s).1.status ≡ cached
    → is_some (claim now r s).1.response ≡ true
unfolding claim
claim-response now r s kept e = ground arith

module _ (show : ℕ → String) (print : Json → String) (to_int : Json → ℕ) (dumps : Json → String)
    (sha256 : String → String) (decode : String → Option (Fields × Fields)) (c : Settings)
    (at : Times) (between : List Call) (q : ExecutionRequest) (token : String) (w : World)
    (s : Store) where
  -- What has been checked of a request whose command has run.
  pub record IsAuthorized : Type 0 where
    pub claims : Fields
    pub identified :
        verify_assertion print to_int decode c.scope at.verified (binding_hash dumps sha256 q) token
        ≡ accepted claims
    pub bound : matches print to_int "request_hash" claims (binding_hash dumps sha256 q) ≡ true
    pub in_time : at.verified ≤ time_claim print to_int "exp" claims + c.scope.clock_skew_seconds
    pub allowlisted : is_allowlisted c q ≡ true
    pub shell : str_eq q.shell_command w.expected_shell ≡ true
    pub extracted : w.is_extracted ≡ true
    pub leased :
        (claim at.claimed
          (claim_request show print to_int c at.current q (binding_hash dumps sha256 q) claims)
          s).1.status
        ≡ acquired

  ran-authorized :
      (claims : Fields)
      → verify_assertion print to_int decode c.scope at.verified (binding_hash dumps sha256 q) token
        ≡ accepted claims
      → has_result (lookup q.execution_id s.executions) ≡ true
      → (execute show print to_int dumps sha256 decode c at between q token w s).ran ≡ true
      → (is_allowlisted c q ≡ true)
        × (str_eq q.shell_command w.expected_shell ≡ true)
        × (w.is_extracted ≡ true)
        × ((claim at.claimed
              (claim_request show print to_int c at.current q (binding_hash dumps sha256 q) claims)
              s).1.status
            ≡ acquired)
  unfolding execute run_claimed commit after_claim
  ran-authorized claims e kept ran = ground (
    arith,
    claim-response at.claimed
        (claim_request show print to_int c at.current q (binding_hash dumps sha256 q) claims) s
        kept,
  )

  refused-ran :
      (why : Refusal)
      → verify_assertion print to_int decode c.scope at.verified (binding_hash dumps sha256 q) token
        ≡ refused why
      → (execute show print to_int dumps sha256 decode c at between q token w s).ran ≡ false
  unfolding execute run_claimed commit
  refused-ran why e = ground arith

  -- No command runs without authority: if the backend ran, the token passed every check, is bound to
  -- the hash of this very request and had not expired beyond the clock skew, the image and the
  -- command are allowlisted, the archive was extracted, the shell command is the one that the policy
  -- derives, and the store gave this claim the lease. The condition is that a completed row of the
  -- execution has a response.
  pub runs_only_authorized :
      has_result (lookup q.execution_id s.executions) ≡ true
      → (execute show print to_int dumps sha256 decode c at between q token w s).ran ≡ true
      → IsAuthorized
  runs_only_authorized kept ran =
      elim (Identity-cases (
        verify_assertion print to_int decode c.scope at.verified (binding_hash dumps sha256 q)
          token)) [
            | inl (claims, e) ↦
                let (same_request, not_expired) =
                  verify_assertion-accepted print to_int decode c.scope at.verified
                    (binding_hash dumps sha256 q) token e in
                let (listed, derived, unpacked, acquires) = ran-authorized claims e kept ran in
                record {
                  claims = claims;
                  identified = e;
                  bound = same_request;
                  in_time = not_expired;
                  allowlisted = listed;
                  shell = derived;
                  extracted = unpacked;
                  leased = acquires;
                }
            | inr (why, e) ↦ ground (arith, refused-ran why e, ran)
          ]

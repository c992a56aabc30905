-- ===== src/Agent/Verdict/Soundness.antt =====
-- No verdict of success without the evidence.
use code_mate.Prelude.{◌≡◌, refl, ◌↔◌, String, true, Option, none, some, arith}
use code_mate.Json.{Fields, get, truthy, mapping_or_none, from_mapping}
use code_mate.Agent.State.{FixAgentState, entry}
use code_mate.Agent.Outcome.{TestOutcome, passed, classify_test_result}
use code_mate.Agent.Verdict.{
  verified_success, determine_status, verification_fields, build_verification_result,
  verification_evidence_is_complete,
}

mapping_or_none-from_mapping : (d : Option Fields) → mapping_or_none (from_mapping d) ≡ d
mapping_or_none-from_mapping none = refl
mapping_or_none-from_mapping (some d) = refl

-- The evidence that a verified run rests on.
pub record IsRepaired (s : FixAgentState) : Type 0 where
  pub reproduced : classify_test_result s.baseline_test_result ≡ TestOutcome.failed
  pub applied : truthy (entry s.apply_result "ok") ≡ true
  pub targeted_passed : classify_test_result s.targeted_test_result ≡ passed
  pub regression_passed : classify_test_result s.regression_test_result ≡ passed

-- The dict of a verified run, with its evidence, passes the evidence check.
module _ (baseline targeted regression apply_result : Option Fields) (reason : String) where
  complete-verification_fields :
      classify_test_result baseline ≡ TestOutcome.failed
      → truthy (entry apply_result "ok") ≡ true
      → classify_test_result targeted ≡ passed
      → classify_test_result regression ≡ passed
      → verification_evidence_is_complete (
          some (
            verification_fields baseline targeted regression apply_result
              (verified_success, reason)))
        ≡ true
  unfolding verification_evidence_is_complete get
  complete-verification_fields b a t r = rw (
    mapping_or_none-from_mapping baseline,
    mapping_or_none-from_mapping targeted,
    mapping_or_none-from_mapping regression,
    b,
    t,
    r,
    a,
  )

module _ (s : FixAgentState) where
  -- A run is judged verified exactly when its baseline failed, its patch was applied, and both the
  -- targeted and the regression tests passed.
  verified_iff :
      ((determine_status s.baseline_test_result s.targeted_test_result s.regression_test_result
          s.apply_result).0
        ≡ verified_success)
      ↔ IsRepaired s
  unfolding determine_status
  verified_iff = (λ h. ground arith, λ h. ground arith)

  determine_status-IsRepaired :
      IsRepaired s
      → determine_status s.baseline_test_result s.targeted_test_result s.regression_test_result
          s.apply_result
        ≡ (verified_success, "baseline_failed_and_post_patch_suites_passed")
  unfolding determine_status
  determine_status-IsRepaired h =
      rw (h.reproduced, h.applied, h.targeted_passed, h.regression_passed)

  -- The evidence check that callers make accepts a built result exactly when the run is repaired.
  complete_iff :
      (verification_evidence_is_complete (some (build_verification_result s)) ≡ true) ↔ IsRepaired s
  unfolding build_verification_result verification_evidence_is_complete get
  complete_iff = (
    λ h. ground (
      arith,
      mapping_or_none-from_mapping s.baseline_test_result,
      mapping_or_none-from_mapping s.targeted_test_result,
      mapping_or_none-from_mapping s.regression_test_result,
    ),
    λ h. rw (determine_status-IsRepaired h) (
        complete-verification_fields s.baseline_test_result s.targeted_test_result
          s.regression_test_result s.apply_result "baseline_failed_and_post_patch_suites_passed"
          h.reproduced h.applied h.targeted_passed h.regression_passed),
  )

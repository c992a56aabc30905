-- ===== src/Agent/Verdict.antt =====
-- The verdict of a repair run: `_determine_status`, `build_verification_result` and
-- `verification_evidence_is_complete` of backend/app/agent/verification.py.
pub mod Soundness
use code_mate.Prelude.{String, Bool, true, false, ◌&&◌, Option, none, some, if◌then◌else◌}
use code_mate.Json.{
  bool, str, Fields, end, field, get, get_default, truthy, is_true, is_text, mapping_or_none,
  from_mapping,
}
use code_mate.Agent.State.{FixAgentState, get_or, entry}
use code_mate.Agent.Outcome.{
  TestOutcome, passed, skipped, infra_error, not_run, classify_test_result, is_passed, is_failed,
}

pub data VerificationStatus : Type 0 where
  verified_success unverified_patch not_reproduced failed infrastructure_error : VerificationStatus

-- The texts that the source binds to VERIFIED_SUCCESS and the others.
abbrev pub status_text : VerificationStatus → String
status_text verified_success = "verified_success"
status_text unverified_patch = "unverified_patch"
status_text not_reproduced = "not_reproduced"
status_text failed = "failed"
status_text infrastructure_error = "infra_error"

-- The tests on the regression outcome, with the baseline's for the end of the function.
abbrev pub regression_status : TestOutcome → TestOutcome → VerificationStatus × String
regression_status infra_error baseline =
    (infrastructure_error, "regression_test_infrastructure_error")
regression_status skipped baseline = (unverified_patch, "regression_tests_not_run")
regression_status not_run baseline = (unverified_patch, "regression_tests_not_run")
regression_status TestOutcome.failed baseline = (failed, "regression_tests_failed")
regression_status passed baseline =
    if is_failed baseline
    then (verified_success, "baseline_failed_and_post_patch_suites_passed")
    else (unverified_patch, "baseline_failure_not_reproduced")

abbrev pub targeted_status : TestOutcome → VerificationStatus × String → VerificationStatus × String
targeted_status infra_error rest = (infrastructure_error, "targeted_test_infrastructure_error")
targeted_status skipped rest = (unverified_patch, "targeted_tests_not_run")
targeted_status not_run rest = (unverified_patch, "targeted_tests_not_run")
targeted_status TestOutcome.failed rest = (failed, "targeted_tests_failed")
targeted_status passed rest = rest

abbrev pub baseline_status : TestOutcome → VerificationStatus × String → VerificationStatus × String
baseline_status infra_error rest = (infrastructure_error, "baseline_infrastructure_error")
baseline_status passed rest = (not_reproduced, "baseline_already_passed")
baseline_status o rest = rest

unfoldable pub determine_status :
    Option Fields → Option Fields → Option Fields → Option Fields → VerificationStatus × String
determine_status baseline targeted regression apply_result =
    let baseline_outcome = classify_test_result baseline in
    baseline_status baseline_outcome (
      if truthy (entry apply_result "ok")
      then targeted_status (classify_test_result targeted)
          (regression_status (classify_test_result regression) baseline_outcome)
      else (failed, "patch_not_applied"))

abbrev pub is_verified : VerificationStatus → Bool
is_verified verified_success = true
is_verified s = false

-- `a or b` for a mapping or None
abbrev pub or_else : Option Fields → Option Fields → Option Fields
or_else none b = b
or_else (some end) b = b
or_else (some (field k v d)) b = some (field k v d)

-- The dict of `build_verification_result`, from the four phase results and the status.
abbrev pub verification_fields :
    Option Fields
    → Option Fields
    → Option Fields
    → Option Fields
    → VerificationStatus × String
    → Fields
verification_fields baseline targeted regression apply_result (status, reason) =
    let last_result = get_or (or_else regression (or_else targeted baseline)) end in
    let targeted_passed = is_passed (classify_test_result targeted) in
    let regression_passed = is_passed (classify_test_result regression) in
    field "status" (str (status_text status)) (
      field "reason" (str reason) (
        field "verified" (bool (is_verified status)) (
          field "passed" (bool (is_verified status)) (
            field "tests_ran" (bool (targeted_passed && regression_passed)) (
              field "exit_code" (get "exit_code" last_result) (
                field "command" (get "command" last_result) (
                  field "stdout" (get_default "stdout" last_result (str "")) (
                    field "stderr" (get_default "stderr" last_result (str "")) (
                      field "timed_out" (bool (truthy (get "timed_out" last_result))) (
                        field "runtime" (get "runtime" last_result) (
                          field "skipped_reason" (get "skipped_reason" last_result) (
                            field "baseline_reproduced"
                              (bool (is_failed (classify_test_result baseline)))
                              (field "patch_applied" (bool (truthy (entry apply_result "ok"))) (
                                field "targeted_tests_passed" (bool targeted_passed) (
                                  field "regression_tests_passed" (bool regression_passed) (
                                    field "baseline" (from_mapping baseline) (
                                      field "targeted" (from_mapping targeted) (
                                        field "regression" (from_mapping regression)
                                          end))))))))))))))))))

-- The state's results are typed as dicts, so `_mapping_or_none` of each is the result itself.
unfoldable pub build_verification_result : FixAgentState → Fields
unfolding determine_status
build_verification_result s =
    verification_fields s.baseline_test_result s.targeted_test_result s.regression_test_result
      s.apply_result
      (determine_status s.baseline_test_result s.targeted_test_result s.regression_test_result
        s.apply_result)

-- The conjunction below the status test.
abbrev pub has_evidence : Fields → Bool
has_evidence result =
    is_failed (classify_test_result (mapping_or_none (get "baseline" result)))
    && is_passed (classify_test_result (mapping_or_none (get "targeted" result)))
    && is_passed (classify_test_result (mapping_or_none (get "regression" result)))
    && is_true (get "patch_applied" result)

-- An empty dict has no status, so `not result` is the case of the status test.
unfoldable pub verification_evidence_is_complete : Option Fields → Bool
verification_evidence_is_complete none = false
verification_evidence_is_complete (some result) =
    if is_text (get "status" result) "verified_success" then has_evidence result else false

-- ===== src/Agent/Outcome/Laws.antt =====
-- What a classification of a test record proves about the record.
use code_mate.Prelude.{◌≡◌, ◌↔◌, true, false, some, arith}
use code_mate.Json.{Fields, end, field, get, truthy, is_true, is_text}
use code_mate.Agent.Outcome.{passed, equals_zero, classify_test_result, classify_record}

-- What a record must say for its phase to count as passed.
pub record IsCleanPass (r : Fields) : Type 0 where
  pub ran : is_true (get "tests_ran" r) ≡ true
  pub flagged : is_true (get "passed" r) ≡ true
  pub exit_zero : equals_zero (get "exit_code" r) ≡ true
  pub in_time : is_true (get "timed_out" r) ≡ false
  pub not_skipped : truthy (get "skipped_reason" r) ≡ false
  pub not_infrastructure : is_text (get "failure_kind" r) "infrastructure" ≡ false
  pub not_skip_kind : is_text (get "failure_kind" r) "skipped" ≡ false
  pub not_failure_kind : is_text (get "failure_kind" r) "test_failure" ≡ false

classify_record-passed : (r : Fields) → classify_record r ≡ passed → IsCleanPass r
classify_record-passed r h = ground arith

IsCleanPass-classify : (r : Fields) → IsCleanPass r → classify_record r ≡ passed
IsCleanPass-classify r c = ground arith

-- The dict of no items says nothing.
IsCleanPass-end : ¬ IsCleanPass end
unfolding get
IsCleanPass-end c = ground (arith, c.ran)

-- A test record is classified as passed exactly when it says that the tests ran, passed with
-- exit code 0 and in time, were not skipped, and carry none of the three failure kinds.
pub passed_iff : (r : Fields) → (classify_test_result (some r) ≡ passed) ↔ IsCleanPass r
unfolding classify_test_result
passed_iff end = (λ h. cc, λ c. absurd (IsCleanPass-end c))
passed_iff (field k v d) =
    (classify_record-passed (field k v d), IsCleanPass-classify (field k v d))

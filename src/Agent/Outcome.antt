-- ===== src/Agent/Outcome.antt =====
-- `classify_test_result` of backend/app/agent/verification.py: what one phase's raw test record
-- proves.
pub mod Laws
use code_mate.Prelude.{
  String, Bool, true, false, not, ◌&&◌, ◌||◌, Option, none, some, ◌==◌, if◌then◌else◌,
}
use code_mate.Json.{Json, bool, num, pos, Fields, end, field, get, truthy, is_true, is_text}

pub data TestOutcome : Type 0 where
  passed failed skipped infra_error not_run : TestOutcome

-- `exit_code == 0`; in Python `False == 0` too.
abbrev pub equals_zero : Json → Bool
equals_zero (num (pos n)) = n == 0
equals_zero (bool b) = not b
equals_zero v = false

-- `exit_code in _INFRASTRUCTURE_EXIT_CODES`
abbrev pub is_infrastructure_exit_code : Json → Bool
is_infrastructure_exit_code (num (pos n)) = n == 124 || n == 125 || n == 126 || n == 127
is_infrastructure_exit_code v = false

-- The body below `if not result`.
abbrev pub classify_record : Fields → TestOutcome
classify_record result =
    if is_text (get "failure_kind" result) "infrastructure" || is_true (get "timed_out" result)
    then infra_error
    else if is_text (get "failure_kind" result) "skipped" || truthy (get "skipped_reason" result)
    then skipped
    else if is_text (get "failure_kind" result) "test_failure"
    then failed
    else if not (is_true (get "tests_ran" result))
    then infra_error
    else if is_true (get "passed" result) && equals_zero (get "exit_code" result)
    then passed
    else if is_text (get "failure_kind" result) "infrastructure"
        || is_infrastructure_exit_code (get "exit_code" result)
    then infra_error
    else failed

unfoldable pub classify_test_result : Option Fields → TestOutcome
classify_test_result none = not_run
classify_test_result (some end) = not_run
classify_test_result (some (field k v d)) = classify_record (field k v d)

abbrev pub is_passed : TestOutcome → Bool
is_passed passed = true
is_passed o = false

abbrev pub is_failed : TestOutcome → Bool
is_failed failed = true
is_failed o = false

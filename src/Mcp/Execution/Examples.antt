-- ===== src/Mcp/Execution/Examples.antt =====
-- One execution, its workers and its operator, and the theorems at their calls.
use code_mate.Prelude.{◌+◌, ◌≤◌, ◌≡◌, refl, String, true, false, none, some, List, [], ◌∷◌, arith}
use code_mate.Json.{Json, bool, str, end, field}
use code_mate.Mcp.Execution.Row.{
  unknown, err, reconciliation_required, Execution, Settings, effective_execution_lease_seconds,
  succeeded, ok,
}
use code_mate.Mcp.Execution.Methods.{leased, claim, complete}
use code_mate.Mcp.Execution.Steps.{
  Call, claims, completes, recovers, reconciles, step, run, remote_calls,
}
use code_mate.Mcp.Execution.Once.{IsValid, step-IsValid, unsafe_called_once}
use code_mate.Mcp.Execution.Lease.{lease_protects}
use code_mate.Mcp.Execution.ExecuteOnce.{raised, execute_once}
use code_mate.Mcp.Execution.Outcomes.{execute_once_settles}
use code_mate.Mcp.Execution.Prepare.{PrepareRequest, find, prepared_row, prepare}
use code_mate.Mcp.Execution.Keys.{prepare_again, TableCall, prepares, calls, call_all, IsFor}

-- Stand-ins for Python's `str`, json and hashlib.
abbrev print : Json → String
print (str s) = s
print v = "value"

abbrev same : Json → Json
same v = v

abbrev sha256 : String → String
sha256 s = s

abbrev settings : Settings
settings = record {
  execution_lease_seconds = 60;
  client_timeout_seconds = 30;
  execution_max_attempts = 3;
  execution_max_checkpoint_chars = 1000;
}

abbrev request : PrepareRequest
request = record {
  run_id = "run";
  call = record {
    qualified_name = "ci.restart";
    server = "ci";
    tool = "restart";
    arguments = str "{}";
  };
  idempotency_key = "key";
  idempotency_mode = "none";
  approval_id = none;
  checkpoint = none;
}

abbrev row : Execution
row = prepared_row same print sha256 10 "x1" request

row-IsValid : IsValid settings row
row-IsValid = ground arith

-- A worker crashes, the watchdog recovers its lease, an operator asks for a retry, and another
-- worker claims again.
abbrev row_calls : List Call
row_calls =
    claims 20 "t1" "pid:1"
    ∷ recovers 90
    ∷ reconciles 95 "retry" 3
        (record { actor = "op"; provider = "github"; note = none; result = none })
    ∷ claims 100 "t2" "pid:2"
    ∷ []

step-IsValid_example : IsValid settings (step print settings (claims 20 "t1" "pid:1") row)
step-IsValid_example = step-IsValid print settings (claims 20 "t1" "pid:1") row row-IsValid

unsafe_called_once_example : remote_calls print settings row_calls row + 0 ≤ 1
unsafe_called_once_example = unsafe_called_once print settings row_calls row row-IsValid refl

abbrev finished : Execution
finished = record row { status = succeeded; result_json = some (field "ok" (bool true) end) }

abbrev others : List Call
others = claims 30 "t2" "pid:2" ∷ completes 35 "t2" end true ∷ recovers 40 ∷ []

claimed : (claim settings 20 "t1" "pid:1" row).0 ≡ ok (leased "t1")
unfolding claim
claimed = refl

lease_protects_example :
    (run print settings others (claim settings 20 "t1" "pid:1" row).1
      ≡ (claim settings 20 "t1" "pid:1" row).1)
    × ((complete print 50 "t1" end false
          (run print settings others (claim settings 20 "t1" "pid:1" row).1)).0
        ≡ ok tt)
    × ((complete print 50 "t1" end false
          (run print settings others (claim settings 20 "t1" "pid:1" row).1)).1.status
        ≡ succeeded)
    × ((complete print 50 "t1" end false
          (run print settings others (claim settings 20 "t1" "pid:1" row).1)).1.result_json
        ≡ some end)
unfolding effective_execution_lease_seconds
lease_protects_example =
    lease_protects print settings 20 "t1" "pid:1" row others 50 end false claimed
      (omega arith, (refl, (omega arith, tt)))

inserted : (prepare same print sha256 settings 10 "x1" request []).0 ≡ ok row
unfolding prepare find
inserted = refl

-- Another request is prepared and the first one's row claimed and completed before it comes again.
abbrev other_request : PrepareRequest
other_request = record request { idempotency_key = "other" }

abbrev table_calls : List TableCall
table_calls =
    prepares 11 "x3" other_request
    ∷ calls "key" (claims 20 "t1" "pid:1")
    ∷ calls "key" (completes 30 "t1" end false)
    ∷ []

prepare_again_example :
    let table =
      call_all same print sha256 print settings table_calls
        (prepare same print sha256 settings 10 "x1" request []).1 in
    (f : Execution) × (prepare same print sha256 settings 40 "x2" request table ≡ (ok f, table))
    × (find "key" table ≡ some f)
    × IsFor same print sha256 request "x1" f
prepare_again_example =
    prepare_again same print sha256 print settings 10 40 "x1" "x2" request [] inserted table_calls

execute_once_settles_example :
    ((execute_once print settings 20 "t1" "pid:1" 50 others (raised "reset") row).1.status
      ≡ unknown)
    × ((execute_once print settings 20 "t1" "pid:1" 50 others (raised "reset") row).0
        ≡ err reconciliation_required)
    × ((execute_once print settings 20 "t1" "pid:1" 50 others (raised "reset") row).1.lease_token
        ≡ none)
unfolding effective_execution_lease_seconds
execute_once_settles_example =
    execute_once_settles print settings 20 "t1" "pid:1" 50 others (raised "reset") row claimed
      (omega arith, (refl, (omega arith, tt)))

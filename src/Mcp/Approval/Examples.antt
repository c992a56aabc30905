-- ===== src/Mcp/Approval/Examples.antt =====
-- One approval, its reviewers and workers, and the theorems at their calls.
use code_mate.Prelude.{◌≡◌, refl, String, true, false, none, List, [], ◌∷◌, arith}
use code_mate.Json.{Json, str, obj, end, field}
use code_mate.Text.{starts_with}
use code_mate.Mcp.Approval.Row.{Approval, Settings, approved, is_decision}
use code_mate.Mcp.Approval.Methods.{decide, claim_for_resume, claim_at}
use code_mate.Mcp.Approval.Create.{AgentRun, ToolCall, pending_row, verify_checkpoint}
use code_mate.Mcp.Approval.Steps.{Call, decides, expires, claims, finishes, step, run, resumptions}
use code_mate.Mcp.Approval.Decisions.{
  IsSound, verdict, step-IsSound, decision_final, late_never_approved,
}
use code_mate.Mcp.Approval.Resume.{resume_excludes}
use code_mate.Mcp.Approval.Table.{request, approved_as_requested}
use code_mate.Mcp.Approval.Redaction.{
  any_in, contains, dashes_to_underscores, redact_sensitive, is_sensitive, has_no_secret,
  redacted_reveals_nothing,
}

-- Stand-ins for Python's `str`, json, hashlib and `str.lower`.
abbrev print : Json → String
print (str s) = s
print v = "value"

abbrev jsonable : Json → Json
jsonable v = v

abbrev same : String → String
same s = s

abbrev settings : Settings
settings = record {
  approval_enabled = true;
  approval_max_checkpoint_chars = 1000;
  approval_ttl_seconds = 3600;
  approval_resume_stale_seconds = 300;
}

abbrev agent_run : AgentRun
agent_run = record {
  id = "run";
  status = "running";
  final_summary = none;
  failure_reason = none;
  updated_at = 0;
}

abbrev call : ToolCall
call = record {
  qualified_name = "ci.restart";
  server = "ci";
  tool = "restart";
  arguments = obj (field "job" (str "build") end);
}

abbrev row : Approval
unfolding pending_row
row = pending_row jsonable print same print settings 10 "a1" "run" call end end

abbrev granted : Approval
unfolding pending_row decide
granted = (decide 20 "approve" none "ana" "github" 1 row).1

row-IsSound : IsSound row
unfolding pending_row
row-IsSound = ground arith

granted-IsSound : IsSound granted
unfolding pending_row decide
granted-IsSound = ground arith

-- A contradicting review, a resumption, an expiry and an end.
abbrev later_calls : List Call
later_calls =
    decides 30 "reject" none "bob" "github" 2
    ∷ claims 40
    ∷ expires 9000
    ∷ finishes 50 (field "text" (str "done") end) false
    ∷ []

abbrev late_calls : List Call
late_calls = decides 3610 "approve" none "ana" "github" 1 ∷ claims 3611 ∷ []

abbrev rival_claims : List Call
rival_claims = claims 41 ∷ expires 50 ∷ claims 300 ∷ []

step-IsSound_example :
    IsSound (step jsonable print settings (decides 20 "approve" none "ana" "github" 1) row)
step-IsSound_example =
    step-IsSound jsonable print settings (decides 20 "approve" none "ana" "github" 1) row
      row-IsSound

decision_final_example : verdict (run jsonable print settings later_calls granted) ≡ verdict granted
unfolding pending_row decide
decision_final_example =
    decision_final jsonable print settings later_calls granted granted-IsSound refl

late_never_approved_example :
    is_decision (run jsonable print settings late_calls row).decision approved ≡ false
unfolding pending_row
late_never_approved_example =
    late_never_approved jsonable print settings late_calls row refl (omega arith, tt)

resume_excludes_example :
    resumptions jsonable print settings rival_claims (claim_for_resume settings 40 granted).1 ≡ 0
unfolding pending_row decide claim_for_resume claim_at
resume_excludes_example =
    resume_excludes jsonable print settings 40 granted rival_claims refl
      (omega arith, (omega arith, tt))

approved_as_requested_example :
    (request (run jsonable print settings later_calls row) ≡ request row)
    × (verify_checkpoint jsonable print same print (run jsonable print settings later_calls row)
        ≡ true)
unfolding pending_row
approved_as_requested_example =
    approved_as_requested jsonable print same print settings 10 "a1" "run" call end end later_calls

redacted_reveals_nothing_example :
    has_no_secret same
      (redact_sensitive same (obj (field "headers" (obj (field "api-key" (str "x") end)) end)))
    ≡ true
redacted_reveals_nothing_example =
    redacted_reveals_nothing same (obj (field "headers" (obj (field "api-key" (str "x") end)) end))

plain_job : is_sensitive same "job" ≡ false
unfolding is_sensitive any_in contains dashes_to_underscores starts_with
plain_job = refl

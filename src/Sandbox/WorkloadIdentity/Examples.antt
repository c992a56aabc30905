-- ===== src/Sandbox/WorkloadIdentity/Examples.antt =====
-- A token of a broker for one request.
use text.Mathlib.Text.{◌==◌ as str_eq}
use code_mate.Prelude.{ℕ, String, Option, some}
use code_mate.Json.{Json, Fields, num, pos, str}
use code_mate.Sandbox.WorkloadIdentity.{Scope}
use code_mate.Sandbox.WorkloadIdentity.Issue.{issued_header, issued_claims}

abbrev scope : Scope
scope = record {
  issuer = "codemate";
  subject = "broker";
  audience = "plane";
  clock_skew_seconds = 5;
}

abbrev print : Json → String
print (str s) = s
print v = "?"

abbrev to_int : Json → ℕ
to_int (num (pos n)) = n
to_int v = 0

-- Stand-ins for the signature, on the one token of the example.
abbrev encode : Fields → Fields → String
encode header claims = "token"

abbrev decode : String → Option (Fields × Fields)
decode token = some (issued_header, issued_claims "codemate" "broker" "plane" "h1" 60 "j1" 100)

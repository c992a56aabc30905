-- ===== src/Sandbox/WorkloadIdentity/Issue.antt =====
-- `issue_assertion` of backend/app/sandbox/workload_identity.py, and what a check makes of its tokens.
-- `encode` signs the header and the claims and joins the three parts; the id is a fresh uuid.
use text.Mathlib.Text.{◌==◌ as str_eq}
use code_mate.Prelude.{ℕ, ◌+◌, String}
use code_mate.Json.{Json, Fields, num, pos, str, end, field}

abbrev pub issued_header : Fields
issued_header = field "alg" (str "EdDSA") (field "typ" (str "JWT") end)

abbrev pub issued_claims : String → String → String → String → ℕ → String → ℕ → Fields
issued_claims issuer subject audience request_hash ttl_seconds id issued_at =
    field "iss" (str issuer) (
      field "sub" (str subject) (
        field "aud" (str audience) (
          field "iat" (num (pos issued_at)) (
            field "exp" (num (pos (issued_at + ttl_seconds)))
              (field "jti" (str id) (field "request_hash" (str request_hash) end))))))

unfoldable pub issue_assertion :
    (Fields → Fields → String) → String → String → String → String → ℕ → String → ℕ → String
issue_assertion encode issuer subject audience request_hash ttl_seconds id issued_at =
    encode issued_header
      (issued_claims issuer subject audience request_hash ttl_seconds id issued_at)

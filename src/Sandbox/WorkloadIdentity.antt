-- ===== src/Sandbox/WorkloadIdentity.antt =====
-- `verify_assertion` of backend/app/sandbox/workload_identity.py: the checks of a workload's token.
-- `decode` splits the token, checks its Ed25519 signature and parses its header and claims; `print`
-- is Python's `str` and `to_int` its `int`. All three are parameters.
pub mod Issue
mod Examples
use text.Mathlib.Text.{◌==◌ as str_eq}
use code_mate.Prelude.{
  ◌≡◌, ◌⊎◌, inl, inr, refl, ℕ, ◌+◌, String, Bool, not, ◌&&◌, ◌==◌, Option, none, some, ltb,
  if◌then◌else◌,
}
use code_mate.Json.{Json, Fields, str, end, field, get, get_default, truthy, is_text}

-- What the caller expects of a token.
pub record Scope : Type 0 where
  pub issuer : String
  pub subject : String
  pub audience : String
  pub clock_skew_seconds : ℕ

-- The messages of `WorkloadIdentityError`.
pub data Refusal : Type 0 where
  invalid unsupported_algorithm scope_mismatch not_active expired binding_mismatch no_jti : Refusal

pub data Identity : Type 0 where
  accepted : Fields → Identity
  refused : Refusal → Identity

pub Identity-cases :
    (x : Identity)
    → ((claims : Fields) × (x ≡ accepted claims)) ⊎ ((why : Refusal) × (x ≡ refused why))
Identity-cases (accepted claims) = inl (claims, refl)
Identity-cases (refused why) = inr (why, refl)

-- `len(d)`
unfoldable pub size : Fields → ℕ
size end = 0
size (field k v d) = size d + 1

-- `header == {"alg": "EdDSA", "typ": "JWT"}`
abbrev pub is_eddsa : Fields → Bool
is_eddsa h = size h == 2 && is_text (get "alg" h) "EdDSA" && is_text (get "typ" h) "JWT"

module _ (print : Json → String) (to_int : Json → ℕ) where
  -- `secrets.compare_digest(str(claims.get(key, "")), value)`
  abbrev pub matches : String → Fields → String → Bool
  matches key claims value = str_eq (print (get_default key claims (str ""))) value

  -- `int(claims.get(key, 0))`
  abbrev pub time_claim : String → Fields → ℕ
  time_claim key claims = to_int (get_default key claims (Json.num (code_mate.Json.ℤ.pos 0)))

  unfoldable pub verify_claims : Scope → ℕ → String → Fields → Fields → Identity
  verify_claims c now request_hash header claims =
      if not (is_eddsa header)
      then refused unsupported_algorithm
      else if not (
          matches "iss" claims c.issuer
          && matches "sub" claims c.subject
          && matches "aud" claims c.audience)
      then refused scope_mismatch
      else if ltb (now + c.clock_skew_seconds) (time_claim "iat" claims)
      then refused not_active
      else if ltb (time_claim "exp" claims + c.clock_skew_seconds) now
      then refused expired
      else if not (matches "request_hash" claims request_hash)
      then refused binding_mismatch
      else if not (truthy (get "jti" claims))
      then refused no_jti
      else accepted claims

  unfoldable pub verify_assertion :
      (String → Option (Fields × Fields)) → Scope → ℕ → String → String → Identity
  unfolding verify_claims
  verify_assertion decode c now request_hash token = elim (decode token) [
    | none ↦ refused invalid
    | some (header, claims) ↦ verify_claims c now request_hash header claims
  ]

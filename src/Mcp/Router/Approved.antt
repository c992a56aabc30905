-- ===== src/Mcp/Router/Approved.antt =====
-- What reaches a remote server after an approval: the calls that `execute_approved` makes.
use text.Mathlib.Text.{◌==◌ as str_eq}
use text.Mathlib.TextEquality.{eq_iff}
use code_mate.Prelude.{
  ◌≡◌, refl, String, Bool, true, Option, none, some, List, inl, inr, Bool-cases, Option-cases,
}
use code_mate.Json.{Json, Fields}
use code_mate.Mcp.Router.Arguments.{
  SchemaCheck, nonempty, validate_tool_arguments, sha256_arguments,
}
use code_mate.Mcp.Router.Plan.{CatalogTool}
use code_mate.Mcp.Router.Execute.{
  RemoteCall, Outcome, rejected, index_error, called, is_authorized, call_tool, find_tool,
  execute_found, execute_approved,
}

module _ (authorize : Option (String → String → String → Bool)) (client : RemoteCall → Fields)
    (jsonschema : Json → Fields → SchemaCheck) (canonical : Json → String)
    (sha256 : String → String) where
  -- A call is made for the tool under the approved name, while its policy still asks for approval,
  -- with the arguments of the hash, and with authorization.
  abbrev pub IsApproved : String → Fields → String → List CatalogTool → Outcome → Type 0
  IsApproved name arguments hash catalog (called call called_name is_ok result) =
      (tool : CatalogTool) × (find_tool name catalog ≡ some tool)
      × (tool.policy ≡ "approval_required")
      × (call.server ≡ tool.server)
      × (call.tool ≡ tool.name)
      × (call.arguments ≡ arguments)
      × (sha256_arguments canonical sha256 call.arguments ≡ hash)
      × (nonempty (validate_tool_arguments jsonschema tool.input_schema call.arguments) ≡ none)
      × (is_authorized authorize call.server call.tool ≡ true)
  IsApproved name arguments hash catalog (rejected tool reason) = ⊥
  IsApproved name arguments hash catalog index_error = ⊥
  IsApproved name arguments hash catalog outcome = Unit

  execute_found-IsApproved :
      (name : String) (arguments : Fields) (hash : String) (catalog : List CatalogTool)
      (idempotency_key execution_id : Option String) (tool : CatalogTool)
      → find_tool name catalog ≡ some tool
      → IsApproved name arguments hash catalog (
          execute_found authorize client jsonschema canonical sha256 tool name arguments hash
            idempotency_key execution_id)
  unfolding execute_found call_tool
  execute_found-IsApproved name arguments hash catalog idempotency_key execution_id tool found =
      elim (Bool-cases (str_eq tool.policy "approval_required")) [
        | inr changed ↦ rw (changed, IsApproved) tt
        | inl required ↦
            elim (Bool-cases (str_eq (sha256_arguments canonical sha256 arguments) hash)) [
              | inr mismatch ↦ rw (required, mismatch, IsApproved) tt
              | inl matches ↦
                  elim (Option-cases
                    (nonempty (validate_tool_arguments jsonschema tool.input_schema arguments))) [
                      | inr (detail, error) ↦ rw (required, matches, error, IsApproved) tt
                      | inl fits ↦
                          elim (Bool-cases (is_authorized authorize tool.server tool.name)) [
                            | inr denied ↦ rw (required, matches, fits, denied, IsApproved) tt
                            | inl allowed ↦
                                rw (required, matches, fits, allowed, IsApproved)
                                  (
                                    tool,
                                    found,
                                    (eq_iff _ _).0 required,
                                    refl,
                                    refl,
                                    refl,
                                    (eq_iff _ _).0 matches,
                                    fits,
                                    allowed,
                                  )
                          ]
                    ]
            ]
      ]

  -- `execute_approved` makes at most the call that was approved: of the tool that the catalogue has
  -- now under the approved name, while the policy of that tool is `approval_required`, with
  -- arguments of the approved hash that its schema accepts, and with authorization.
  pub execute_approved-IsApproved :
      (name : String) (arguments : Fields) (hash : String) (catalog : List CatalogTool)
      (idempotency_key execution_id : Option String)
      → IsApproved name arguments hash catalog (
          execute_approved authorize client jsonschema canonical sha256 name arguments hash catalog
            idempotency_key execution_id)
  unfolding execute_approved
  execute_approved-IsApproved name arguments hash catalog idempotency_key execution_id =
      elim (Option-cases (find_tool name catalog)) [
        | inl absent ↦ rw (absent, IsApproved) tt
        | inr (tool, found) ↦
            rw (found, IsApproved)
              (execute_found-IsApproved name arguments hash catalog idempotency_key execution_id
                tool found)
      ]

-- ===== src/Mcp/Router/Execute.antt =====
-- `MCPToolRouter.execute` and `execute_approved`: a call goes to a remote server only after its own
-- checks. `authorize` is the router's optional callback, which raises or does not, and `client` is
-- what the server answers.
use text.Mathlib.Text.{◌==◌ as str_eq}
use code_mate.Prelude.{
  String, Bool, true, false, not, ◌||◌, Option, none, some, List, [], ◌∷◌, if◌then◌else◌,
}
use code_mate.Json.{Json, Fields, end, field, get, truthy}
use code_mate.Mcp.Router.Arguments.{
  SchemaCheck, nonempty, validate_tool_arguments, sha256_arguments,
}
use code_mate.Mcp.Router.Plan.{CatalogTool, Call, Rejection, approval_required, validate_plan}

-- What `call_tool` is given. The keys are there when one of them is set.
pub record RemoteCall : Type 0 where
  pub server : String
  pub tool : String
  pub arguments : Fields
  pub keys : Option (Option String × Option String)

pub data Outcome : Type 0 where
  -- `policy_rejection`, with the name that the call had.
  rejected : Json → Rejection → Outcome
  -- The lookup of `validation["rejected"][0]` raises.
  index_error : Outcome
  -- `error`, and its `detail`.
  refused : String → Option String → Outcome
  -- `authorize` raises.
  unauthorized : Outcome
  -- The call that was made, its name, whether it is ok, and its result.
  called : RemoteCall → String → Bool → Fields → Outcome

abbrev pub is_set : Option String → Bool
is_set none = false
is_set (some s) = not (str_eq s "")

-- `execution_kwargs`
abbrev pub execution_kwargs : Option String → Option String → Option (Option String × Option String)
execution_kwargs idempotency_key execution_id =
    if is_set idempotency_key || is_set execution_id
    then some (idempotency_key, execution_id)
    else none

-- `if self.authorize:`, and whether it lets the call pass.
abbrev pub is_authorized : Option (String → String → String → Bool) → String → String → Bool
is_authorized none server tool = true
is_authorized (some authorize) server tool = authorize server tool "execute"

-- `next((tool for tool in catalog if …), None)`
unfoldable pub find_tool : String → List CatalogTool → Option CatalogTool
find_tool qualified_name [] = none
find_tool qualified_name (tool ∷ tools) =
    let later = find_tool qualified_name tools in
    if str_eq tool.qualified_name qualified_name then some tool else later

module _ (authorize : Option (String → String → String → Bool)) (client : RemoteCall → Fields) where
  -- The end of both methods, from the authorization on.
  unfoldable pub call_tool : RemoteCall → String → Outcome
  call_tool call qualified_name =
      if is_authorized authorize call.server call.tool
      then called call qualified_name (not (truthy (get "isError" (client call)))) (client call)
      else unauthorized

  -- `validation["rejected"][0]`
  abbrev pub first_rejection : Json → List Rejection → Outcome
  first_rejection name [] = index_error
  first_rejection name (rejection ∷ rest) = rejected name rejection

  -- `execute`, below its validation.
  unfoldable pub execute_validated :
      Json
      → Option (Option String × Option String)
      → List Call
      → List Call
      → List Rejection
      → Outcome
  unfolding call_tool
  execute_validated name keys [] [] rejections = first_rejection name rejections
  execute_validated name keys [] (request ∷ requests) rejections =
      rejected name (record { tool = name; reason = approval_required })
  execute_validated name keys (validated ∷ calls) requests rejections =
      call_tool
        (record {
          server = validated.server;
          tool = validated.tool;
          arguments = validated.arguments;
          keys = keys;
        })
        validated.qualified_name

  -- The one call that `execute` validates.
  abbrev pub proposal : Fields → Fields
  proposal call =
      field "tool" (get "qualified_name" call) (field "arguments" (get "arguments" call) end)

  -- `execute`
  unfoldable pub execute :
      (Json → String)
      → (Json → String)
      → (Json → Fields → SchemaCheck)
      → Fields
      → List CatalogTool
      → Option String
      → Option String
      → Outcome
  unfolding validate_plan execute_validated
  execute dumps text jsonschema call catalog idempotency_key execution_id =
      let validation = validate_plan dumps text jsonschema (proposal call ∷ []) catalog 1 [] in
      execute_validated (get "qualified_name" call) (execution_kwargs idempotency_key execution_id)
        validation.calls validation.approval_requests validation.rejected

  module _ (jsonschema : Json → Fields → SchemaCheck) (canonical : Json → String)
      (sha256 : String → String) where
    -- `execute_approved`, for the tool that was found.
    unfoldable pub execute_found :
        CatalogTool → String → Fields → String → Option String → Option String → Outcome
    unfolding call_tool
    execute_found tool qualified_name arguments expected_arguments_hash idempotency_key
          execution_id =
        if not (str_eq tool.policy "approval_required")
        then refused "approval_policy_changed" none
        else if not (str_eq (sha256_arguments canonical sha256 arguments) expected_arguments_hash)
        then refused "approved_arguments_hash_mismatch" none
        else elim (nonempty (validate_tool_arguments jsonschema tool.input_schema arguments)) [
          | some detail ↦ refused "approved_arguments_no_longer_valid" (some detail)
          | none ↦
              call_tool
                (record {
                  server = tool.server;
                  tool = tool.name;
                  arguments = arguments;
                  keys = execution_kwargs idempotency_key execution_id;
                })
                qualified_name
        ]

    -- `execute_approved`
    unfoldable pub execute_approved :
        String → Fields → String → List CatalogTool → Option String → Option String → Outcome
    unfolding find_tool execute_found
    execute_approved qualified_name arguments expected_arguments_hash catalog idempotency_key
          execution_id =
        elim (find_tool qualified_name catalog) [
          | none ↦ refused "approved_tool_not_in_current_catalog" none
          | some tool ↦
              execute_found tool qualified_name arguments expected_arguments_hash idempotency_key
                execution_id
        ]

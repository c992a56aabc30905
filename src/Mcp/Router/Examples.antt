-- ===== src/Mcp/Router/Examples.antt =====
-- A catalogue of two tools, and a model that proposes good and bad calls.
use code_mate.Prelude.{false, ◌≡◌, refl, String, true, false, none, some, List, [], ◌∷◌, arith}
use code_mate.Lists.{All}
use code_mate.Json.{Json, Fields, str, num, pos, arr, obj, cons, end, field, get}
use code_mate.Mcp.Router.Arguments.{SchemaCheck, valid, first_error}
use code_mate.Mcp.Router.Plan.{CatalogTool, Plan, validate_plan}
use code_mate.Mcp.Router.Execute.{
  RemoteCall, execution_kwargs, call_tool, execute, execute_approved,
}
use code_mate.Mcp.Router.Calls.{
  IsJustified, call_fields, remote_call, execute-IsJustified, planned_executes,
}
use code_mate.Mcp.Router.Approved.{IsApproved, execute_approved-IsApproved}
use code_mate.Mcp.Router.Catalog.{Server, Listing, listed, discover_catalog}
use code_mate.Mcp.Router.Discovery.{any_offers}
use code_mate.Mcp.Router.Authority.{planned_as_configured}

-- Stand-ins for json.dumps, str and jsonschema: a text for a pair, and a schema that wants "q".
abbrev text : Json → String
text (str s) = s
text v = ""

abbrev dumps : Json → String
dumps (arr (cons v rest)) = text v
dumps v = "{}"

abbrev wants_q : Json → SchemaCheck
wants_q (str s) = valid
wants_q v = first_error "q" "is not a string"

abbrev jsonschema : Json → Fields → SchemaCheck
jsonschema schema arguments = wants_q (get "q" arguments)

abbrev server : Server
server = record {
  name = "docs";
  enabled = true;
  allowed_tools = "search" ∷ "write" ∷ "drop" ∷ [];
  tool_policies = ("search", "auto") ∷ ("write", "approval_required") ∷ [];
}

abbrev tool_named : String → Fields
tool_named name = field "name" (str name) end

abbrev list_tools : Server → Listing
list_tools s =
    listed (tool_named "search" ∷ tool_named "other" ∷ tool_named "write" ∷ tool_named "drop" ∷ [])

-- What is discovered: "drop" has no policy, and "other" is not allowed.
abbrev entry : String → String → CatalogTool
entry name policy = record {
  qualified_name = name;
  server = "docs";
  name = name;
  description = str "";
  input_schema = obj (field "type" (str "object") end);
  annotations = Json.null;
  policy = policy;
}

abbrev catalog : List CatalogTool
catalog = entry "search" "auto" ∷ entry "write" "approval_required" ∷ entry "drop" "deny" ∷ []

abbrev proposed_call : String → Json → Fields
proposed_call tool q = field "tool" (str tool) (field "arguments" (obj (field "q" q end)) end)

-- Good, the same again, for approval, denied, unknown, and of the wrong shape.
abbrev proposed : List Fields
proposed =
    proposed_call "search" (str "a")
    ∷ proposed_call "search" (str "a")
    ∷ proposed_call "write" (str "b")
    ∷ proposed_call "drop" (str "c")
    ∷ proposed_call "none" (str "d")
    ∷ field "tool" (num (pos 1)) end
    ∷ []

abbrev client : RemoteCall → Fields
client call = field "isError" (Json.bool false) end

abbrev validated : Plan
validated = validate_plan dumps text jsonschema proposed catalog 3 []

execute-IsJustified_example : IsJustified none client jsonschema dumps text catalog (
    execute none client dumps text jsonschema
      (field "qualified_name"
        (str "search")
        (field "arguments" (obj (field "q" (str "a") end)) end))
      catalog
      none
      none)
execute-IsJustified_example =
    execute-IsJustified none client jsonschema dumps text catalog
      (field "qualified_name" (str "search")
        (field "arguments" (obj (field "q" (str "a") end)) end))
      none none

planned_executes_example :
    All
      (λ c.
        execute none client dumps text jsonschema (call_fields c) catalog (some "k") none
        ≡ call_tool none client (remote_call (execution_kwargs (some "k") none) c) c.qualified_name)
      validated.calls
planned_executes_example =
    planned_executes none client jsonschema dumps text catalog proposed 3 [] (some "k") none
      validated refl

execute_approved-IsApproved_example :
    IsApproved none client jsonschema dumps
      (λ s. s)
      "write"
      (field "q" (str "b") end)
      "{}"
      catalog
      (execute_approved none client jsonschema dumps
        (λ s. s)
        "write"
        (field "q" (str "b") end)
        "{}"
        catalog
        none
        none)
execute_approved-IsApproved_example =
    execute_approved-IsApproved none client jsonschema dumps (λ s. s) "write"
      (field "q" (str "b") end) "{}" catalog none none

-- The same proposals under the names of the discovered tools.
abbrev proposed_there : List Fields
proposed_there =
    proposed_call "docs.search" (str "a")
    ∷ proposed_call "docs.search" (str "a")
    ∷ proposed_call "docs.write" (str "b")
    ∷ proposed_call "docs.drop" (str "c")
    ∷ proposed_call "search" (str "d")
    ∷ []

abbrev discovered_plan : Plan
discovered_plan =
    validate_plan dumps text jsonschema proposed_there
      (discover_catalog dumps text 10 list_tools (server ∷ [])).tools 3 []

planned_as_configured_example :
    All (λ c. any_offers (server ∷ []) c.server c.tool "auto" ≡ true) discovered_plan.calls
    × All
        (λ c. any_offers (server ∷ []) c.server c.tool "approval_required" ≡ true)
        discovered_plan.approval_requests
planned_as_configured_example =
    planned_as_configured dumps text jsonschema 10 (server ∷ []) list_tools proposed_there 3 []
      discovered_plan (omega arith) refl

-- A schema with a reference to another document in a property.
abbrev outside : Json
outside =
    obj (field "properties" (obj (field "q" (obj (field "$ref" (str "https://x") end)) end)) end)

-- A validator that does not come to the property, as the arguments do not have it.
abbrev accepts : Json → Fields → SchemaCheck
accepts schema arguments = valid

-- ===== src/Mcp/Router/Catalog.antt =====
-- `MCPToolRouter.discover_catalog` of backend/app/mcp/router.py: the tools that may be planned, from
-- what the servers list. `dumps` is the json.dumps of a schema and `text` Python's `str`. What
-- `list_tools` answers for a server is a parameter, as are the settings.
use Prim.Native.String.{◌++◌ as str_append}
use code_mate.Prelude.{
  ℕ, String, Bool, false, ◌&&◌, Option, none, some, List, [], ◌∷◌, ◌++◌, max, ltb, leb, ◌==◌,
  if◌then◌else◌,
}
use code_mate.Lists.{length, member}
use code_mate.Text.{length as text_length}
use code_mate.Json.{Json, Fields, str, obj, end, field, get, truthy}
use code_mate.Dict.{Dict, lookup}
use code_mate.Mcp.Router.Plan.{CatalogTool}

-- The fields of a server's configuration that the router reads.
pub record Server : Type 0 where
  pub name : String
  pub enabled : Bool
  pub allowed_tools : List String
  pub tool_policies : Dict String

-- What `gather` has for a server: its tools, or the text of an exception.
pub data Listing : Type 0 where
  listed : List Fields → Listing
  raised : String → Listing

pub record CatalogError : Type 0 where
  pub server : String
  pub error : String

-- The catalogue as it is built; `truncated` ends the loops.
pub record Catalog : Type 0 where
  pub tools : List CatalogTool
  pub errors : List CatalogError
  pub truncated : Bool

-- `max(1, max_catalog_tools or settings.mcp_tool_router_max_catalog_tools)`
abbrev pub tool_limit : Option ℕ → ℕ → ℕ
tool_limit none default = max 1 default
tool_limit (some n) default = max 1 (if n == 0 then default else n)

-- `server.enabled and server.allowed_tools`
abbrev pub is_usable : Server → Bool
is_usable server = server.enabled && leb 1 (length server.allowed_tools)

abbrev pub or_deny : Option String → String
or_deny none = "deny"
or_deny (some policy) = policy

-- `tool.get("input_schema") or {"type": "object"}`
abbrev pub schema_or_object : Json → Json
schema_or_object v = if truthy v then v else obj (field "type" (str "object") end)

module _ (dumps : Json → String) (text : Json → String) where
  -- `_catalog_entry`
  abbrev pub catalog_entry : Server → Fields → Json → CatalogTool
  catalog_entry server tool input_schema =
      let name = text (get "name" tool) in
      record {
        qualified_name = str_append server.name (str_append "." name);
        server = server.name;
        name = name;
        description = if truthy (get "description" tool) then get "description" tool else str "";
        input_schema = input_schema;
        annotations = get "annotations" tool;
        policy = or_deny (lookup name server.tool_policies);
      }

  -- The inner loop's body for a tool that the server allows.
  unfoldable pub add_allowed : ℕ → Server → Fields → Catalog → Catalog
  add_allowed limit server tool c =
      let input_schema = schema_or_object (get "input_schema" tool) in
      if ltb 20000 (text_length (dumps input_schema))
      then record c {
        errors =
            c.errors
            ++ (record {
              server = server.name;
              error = str_append "Tool schema too large: " (text (get "name" tool));
            }
                ∷ []);
      }
      else let tools = c.tools ++ (catalog_entry server tool input_schema ∷ []) in
        record c { tools = tools; truncated = leb limit (length tools) }

  -- The inner loop, which returns from the method at the limit.
  unfoldable pub add_tools : ℕ → Server → List Fields → Catalog → Catalog
  unfolding add_allowed
  add_tools limit server [] c = c
  add_tools limit server (tool ∷ tools) c =
      let next =
        if member (text (get "name" tool)) server.allowed_tools
        then add_allowed limit server tool c
        else c in
      let later = add_tools limit server tools next in if next.truncated then next else later

  abbrev pub add_listing : ℕ → Server → Listing → Catalog → Catalog
  add_listing limit server (listed tools) c = add_tools limit server tools c
  add_listing limit server (raised error) c = record c {
    errors = c.errors ++ (record { server = server.name; error = error } ∷ []);
  }

  -- The outer loop, over the usable servers.
  unfoldable pub add_servers : ℕ → (Server → Listing) → List Server → Catalog → Catalog
  unfolding add_tools
  add_servers limit list_tools [] c = c
  add_servers limit list_tools (server ∷ servers) c =
      let next = if is_usable server then add_listing limit server (list_tools server) c else c in
      let later = add_servers limit list_tools servers next in
      if next.truncated then next else later

  -- `_discover_catalog`. Without a usable server the source leaves `truncated` out of its answer.
  unfoldable pub discover_catalog : ℕ → (Server → Listing) → List Server → Catalog
  discover_catalog limit list_tools servers =
      add_servers limit list_tools servers (record { tools = []; errors = []; truncated = false })

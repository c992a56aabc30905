-- ===== src/Agent/Loop/Actions.antt =====
-- The actions that the planner may choose (backend/app/agent/actions.py), after pydantic has
-- validated them, and the calls of the tools that they stand for. `dumps` is json.dumps, `sha256`
-- hashlib's.
use code_mate.Prelude.{ℕ, ◌+◌, ◌-◌, String, Option, none, some, ◌==◌, if◌then◌else◌}
use code_mate.Json.{Json, Fields, null, num, pos, str, obj, end, field}

pub data Direction : Type 0 where
  imports : Direction
  importers : Direction
  callers : Direction
  callees : Direction
  both : Direction

-- The classes with their own fields.
pub data Request : Type 0 where
  search_code : String → ℕ → Request
  read_file : String → ℕ → Option ℕ → Request
  list_files : Option String → Request
  find_symbol : String → Request
  find_references : String → Request
  get_import_graph : String → Direction → ℕ → Request
  get_call_graph : String → Direction → ℕ → Request
  run_tests : String → Request
  generate_patch : Request
  finish : String → Request

-- `AgentAction`
pub record Action : Type 0 where
  pub hypothesis : String
  pub rationale : String
  pub request : Request

abbrev pub direction_text : Direction → String
direction_text imports = "imports"
direction_text importers = "importers"
direction_text callers = "callers"
direction_text callees = "callees"
direction_text both = "both"

-- `action.action`
abbrev pub action_name : Request → String
action_name (search_code query top_k) = "SearchCode"
action_name (read_file path start_line end_line) = "ReadFile"
action_name (list_files pattern) = "ListFiles"
action_name (find_symbol symbol) = "FindSymbol"
action_name (find_references symbol) = "FindReferences"
action_name (get_import_graph path direction depth) = "GetImportGraph"
action_name (get_call_graph symbol direction depth) = "GetCallGraph"
action_name (run_tests command) = "RunTests"
action_name generate_patch = "GeneratePatch"
action_name (finish reason) = "Finish"

abbrev pub text_or_null : Option String → Json
text_or_null none = null
text_or_null (some s) = str s

abbrev pub number_or_null : Option ℕ → Json
number_or_null none = null
number_or_null (some n) = num (pos n)

-- The fields of `model_dump` but the hypothesis and the rationale.
abbrev pub request_fields : Request → Fields
request_fields (search_code query top_k) =
    field "query" (str query) (field "top_k" (num (pos top_k)) end)
request_fields (read_file path start_line end_line) =
    field "path" (str path)
      (field "start_line" (num (pos start_line)) (field "end_line" (number_or_null end_line) end))
request_fields (list_files pattern) = field "pattern" (text_or_null pattern) end
request_fields (find_symbol symbol) = field "symbol" (str symbol) end
request_fields (find_references symbol) = field "symbol" (str symbol) end
request_fields (get_import_graph path direction depth) =
    field "path" (str path)
      (field "direction" (str (direction_text direction)) (field "depth" (num (pos depth)) end))
request_fields (get_call_graph symbol direction depth) =
    field "symbol" (str symbol)
      (field "direction" (str (direction_text direction)) (field "depth" (num (pos depth)) end))
request_fields (run_tests command) = field "command" (str command) end
request_fields generate_patch = end
request_fields (finish reason) = field "reason" (str reason) end

-- `action.model_dump(exclude={"hypothesis", "rationale"})`
abbrev pub payload : Action → Fields
payload a = field "action" (str (action_name a.request)) (request_fields a.request)

-- `action.model_dump(mode="json")`
abbrev pub model_dump : Action → Fields
model_dump a =
    field "hypothesis" (str a.hypothesis) (field "rationale" (str a.rationale) (payload a))

-- `action_fingerprint`
unfoldable pub action_fingerprint : (Json → String) → (String → String) → Action → String
action_fingerprint dumps sha256 a = sha256 (dumps (obj (payload a)))

-- The methods of `AgentTools` that `_dispatch` calls.
pub data ToolCall : Type 0 where
  tools_search_code : String → ℕ → ToolCall
  tools_read_file : String → ℕ → ℕ → ToolCall
  tools_list_files : Option String → ToolCall
  tools_find_symbol : String → ToolCall
  tools_find_references : String → ToolCall
  tools_get_import_graph : String → Direction → ℕ → ToolCall
  tools_get_call_graph : String → Direction → ℕ → ToolCall
  tools_run_tests : String → ToolCall

-- `action.end_line or (action.start_line + settings.agent_max_read_lines - 1)`
abbrev pub end_line_or : ℕ → ℕ → Option ℕ → ℕ
end_line_or max_read_lines start_line none = start_line + max_read_lines - 1
end_line_or max_read_lines start_line (some n) =
    if n == 0 then start_line + max_read_lines - 1 else n

-- `_dispatch`, and `isinstance(action, LOCAL_TOOL_ACTIONS)`: none for the others.
unfoldable pub tool_call : ℕ → Request → Option ToolCall
tool_call max_read_lines (search_code query top_k) = some (tools_search_code query top_k)
tool_call max_read_lines (read_file path start_line end_line) =
    some (tools_read_file path start_line (end_line_or max_read_lines start_line end_line))
tool_call max_read_lines (list_files pattern) = some (tools_list_files pattern)
tool_call max_read_lines (find_symbol symbol) = some (tools_find_symbol symbol)
tool_call max_read_lines (find_references symbol) = some (tools_find_references symbol)
tool_call max_read_lines (get_import_graph path direction depth) =
    some (tools_get_import_graph path direction depth)
tool_call max_read_lines (get_call_graph symbol direction depth) =
    some (tools_get_call_graph symbol direction depth)
tool_call max_read_lines (run_tests command) = some (tools_run_tests command)
tool_call max_read_lines generate_patch = none
tool_call max_read_lines (finish reason) = none

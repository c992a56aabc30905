-- ===== src/Mcp/Router/Plan.antt =====
-- `MCPToolRouter.validate_plan` and `plan`: which of the proposed calls may run, which need an
-- approval and which are rejected. `dumps` is the json.dumps of the fingerprints, `text` Python's
-- `str`, and `jsonschema` the validator. `remaining_calls` is at least 0: the callers subtract no
-- more than they have.
use text.Mathlib.Text.{◌==◌ as str_eq}
use code_mate.Prelude.{
  ℕ, ◌+◌, String, Bool, false, ◌||◌, Option, none, some, List, [], ◌∷◌, ◌++◌, leb, ◌==◌,
  if◌then◌else◌,
}
use code_mate.Lists.{length, take, member}
use code_mate.Json.{Json, Fields, str, obj, end, get, truthy, mapping_or_none, or_empty}
use code_mate.Dict.{Dict, lookup, insert}
use code_mate.Mcp.Router.Arguments.{
  SchemaCheck, nonempty, validate_tool_arguments, call_fingerprint,
}

-- An entry of the catalogue.
pub record CatalogTool : Type 0 where
  pub qualified_name : String
  pub server : String
  pub name : String
  pub description : Json
  pub input_schema : Json
  pub annotations : Json
  pub policy : String

pub record Call : Type 0 where
  pub qualified_name : String
  pub server : String
  pub tool : String
  pub arguments : Fields

pub data Reason : Type 0 where
  invalid_plan_shape : Reason
  tool_not_in_catalog : Reason
  deny : Reason
  duplicate_call : Reason
  schema_validation_failed : String → Reason
  call_budget_exhausted : Reason
  invalid_policy : Reason
  approval_required : Reason

pub record Rejection : Type 0 where
  pub tool : Json
  pub reason : Reason

-- `value or {}`
abbrev pub or_empty_dict : Json → Json
or_empty_dict v = if truthy v then v else obj end

-- `isinstance(value, str)`, with the text.
abbrev pub text_or_none : Json → Option String
text_or_none (str s) = some s
text_or_none v = none

-- The variables of the loop.
pub record Planning : Type 0 where
  pub seen : List String
  pub accepted : List Call
  pub approval_requests : List Call
  pub rejected : List Rejection

-- What the planner returns.
pub record Plan : Type 0 where
  pub calls : List Call
  pub approval_requests : List Call
  pub rejected : List Rejection
  pub planner_calls : List Fields

-- `{tool["qualified_name"]: tool for tool in catalog}`: a later entry replaces an earlier one.
abbrev pub add_tools : List CatalogTool → Dict CatalogTool → Dict CatalogTool
add_tools [] d = d
add_tools (tool ∷ tools) d = add_tools tools (insert tool.qualified_name tool d)

unfoldable pub by_name : List CatalogTool → Dict CatalogTool
by_name catalog = add_tools catalog []

abbrev pub reject : Json → Reason → Planning → Planning
reject tool reason p = record p {
  rejected = p.rejected ++ (record { tool = tool; reason = reason } ∷ []);
}

abbrev pub normalized_call : CatalogTool → String → Fields → Call
normalized_call tool qualified_name arguments = record {
  qualified_name = qualified_name;
  server = tool.server;
  tool = tool.name;
  arguments = arguments;
}

-- The switch on the policy at the end of the loop's body.
unfoldable pub place : CatalogTool → String → Fields → Planning → Planning
place tool qualified_name arguments p =
    let call = normalized_call tool qualified_name arguments in
    if str_eq tool.policy "approval_required"
    then record p { approval_requests = p.approval_requests ++ (call ∷ []) }
    else if str_eq tool.policy "auto"
    then record p { accepted = p.accepted ++ (call ∷ []) }
    else reject (str qualified_name) invalid_policy p

module _ (dumps : Json → String) (text : Json → String)
    (jsonschema : Json → Fields → SchemaCheck) where
  -- The fingerprints of the earlier calls: an observation with a name and its arguments.
  unfoldable pub fingerprints : List Json → List String
  fingerprints [] = []
  fingerprints (observation ∷ rest) =
      let others = fingerprints rest in
      let o = or_empty (mapping_or_none observation) in
      if truthy (get "qualified_name" o)
      then call_fingerprint dumps (text (get "qualified_name" o))
          (or_empty_dict (get "arguments" o))
        ∷ others
      else others

  -- The loop's body for a tool of the catalogue whose policy is not to deny.
  unfoldable pub check_call : ℕ → CatalogTool → String → Fields → Planning → Planning
  unfolding place
  check_call remaining_calls tool qualified_name arguments p =
      let fingerprint = call_fingerprint dumps qualified_name (obj arguments) in
      if member fingerprint p.seen
      then reject (str qualified_name) duplicate_call p
      else elim (nonempty (validate_tool_arguments jsonschema tool.input_schema arguments)) [
        | some detail ↦ reject (str qualified_name) (schema_validation_failed detail) p
        | none ↦
            if leb remaining_calls (length p.accepted + length p.approval_requests)
            then reject (str qualified_name) call_budget_exhausted p
            else place tool qualified_name arguments (record p { seen = fingerprint ∷ p.seen })
      ]

  -- The loop's body for what the catalogue has under the name.
  unfoldable pub check_tool : ℕ → Option CatalogTool → String → Fields → Planning → Planning
  unfolding check_call
  check_tool remaining_calls none qualified_name arguments p =
      reject (str qualified_name) tool_not_in_catalog p
  check_tool remaining_calls (some tool) qualified_name arguments p =
      if str_eq tool.policy "deny"
      then reject (str qualified_name) deny p
      else check_call remaining_calls tool qualified_name arguments p

  -- The loop's body for a name and arguments.
  unfoldable pub check_named : ℕ → List CatalogTool → String → Fields → Planning → Planning
  unfolding check_tool
  check_named remaining_calls catalog qualified_name arguments p =
      check_tool remaining_calls (lookup qualified_name (by_name catalog)) qualified_name arguments
        p

  -- `str(qualified_name or "unknown")`
  abbrev pub name_or_unknown : Json → Json
  name_or_unknown v = if truthy v then str (text v) else str "unknown"

  -- The loop's body, on the name and the arguments if they have the right types.
  unfoldable pub check_shape :
      ℕ → List CatalogTool → Json → Option String → Option Fields → Planning → Planning
  check_shape remaining_calls catalog tool none arguments p =
      reject (name_or_unknown tool) invalid_plan_shape p
  check_shape remaining_calls catalog tool (some name) none p =
      reject (name_or_unknown tool) invalid_plan_shape p
  check_shape remaining_calls catalog tool (some name) (some arguments) p =
      check_named remaining_calls catalog name arguments p

  -- The loop's body.
  unfoldable pub check_proposed : ℕ → List CatalogTool → Fields → Planning → Planning
  unfolding check_shape
  check_proposed remaining_calls catalog proposed p =
      check_shape remaining_calls catalog (get "tool" proposed) (text_or_none (get "tool" proposed))
        (mapping_or_none (get "arguments" proposed)) p

  unfoldable pub check_all : ℕ → List CatalogTool → List Fields → Planning → Planning
  check_all remaining_calls catalog [] p = p
  check_all remaining_calls catalog (proposed ∷ rest) p =
      check_all remaining_calls catalog rest (check_proposed remaining_calls catalog proposed p)

  abbrev pub start : List Json → Planning
  start observations = record {
    seen = fingerprints observations;
    accepted = [];
    approval_requests = [];
    rejected = [];
  }

  unfoldable pub validate_plan : List Fields → List CatalogTool → ℕ → List Json → Plan
  validate_plan proposed_calls catalog remaining_calls observations =
      let p = check_all remaining_calls catalog (take 20 proposed_calls) (start observations) in
      record {
        calls = p.accepted;
        approval_requests = p.approval_requests;
        rejected = p.rejected;
        planner_calls = take 20 proposed_calls;
      }

  -- `any(tool["policy"] in {"auto", "approval_required"} for tool in catalog)`
  unfoldable pub has_callable : List CatalogTool → Bool
  has_callable [] = false
  has_callable (tool ∷ tools) =
      str_eq tool.policy "auto" || str_eq tool.policy "approval_required" || has_callable tools

  -- `plan`, with what the model proposes.
  unfoldable pub plan : List Fields → List CatalogTool → ℕ → List Json → Plan
  unfolding validate_plan
  plan proposed_calls catalog remaining_calls observations =
      let validated = validate_plan proposed_calls catalog remaining_calls observations in
      if remaining_calls == 0
      then record { calls = []; approval_requests = []; rejected = []; planner_calls = [] }
      else if has_callable catalog
      then validated
      else record { calls = []; approval_requests = []; rejected = []; planner_calls = [] }

-- ===== src/Mcp/Router/Calls.antt =====
-- What reaches a remote server: the calls that `execute` makes.
use code_mate.Prelude.{
  ℕ, ◌+◌, ◌≡◌, refl, String, Bool, true, Option, List, [], ◌∷◌, inl, inr, Bool-cases,
}
use code_mate.Lists.{length, take, member, All, All-map}
use code_mate.Json.{Json, Fields, str, obj, end, field, get}
use code_mate.Mcp.Router.Arguments.{call_fingerprint, SchemaCheck}
use code_mate.Mcp.Router.Plan.{
  start, normalized_call, Planning, CatalogTool, Call, Plan, Rejection, validate_plan, check_all,
  check_proposed, check_shape, check_named, check_tool, check_call, place, fingerprints,
}
use code_mate.Mcp.Router.Cases.{record_seen}
use code_mate.Mcp.Router.Soundness.{IsCallable, plan_authorized, plan_partitions}
use code_mate.Mcp.Router.Execute.{
  RemoteCall, Outcome, index_error, called, is_authorized, call_tool, execution_kwargs,
  execute_validated, execute,
}

-- The dict of a planned call.
abbrev pub call_fields : Call → Fields
call_fields c = field "qualified_name" (str c.qualified_name) (
    field "server" (str c.server)
      (field "tool" (str c.tool) (field "arguments" (obj c.arguments) end)))

-- The call of `call_tool` for a planned call.
abbrev pub remote_call : Option (Option String × Option String) → Call → RemoteCall
remote_call keys c = record {
  server = c.server;
  tool = c.tool;
  arguments = c.arguments;
  keys = keys;
}

module _ (authorize : Option (String → String → String → Bool)) (client : RemoteCall → Fields)
    (jsonschema : Json → Fields → SchemaCheck) where
  module _ (dumps : Json → String) (text : Json → String) (catalog : List CatalogTool) where
    -- A call is made for a callable tool, with authorization.
    abbrev pub IsJustified : Outcome → Type 0
    IsJustified (called call name is_ok result) =
        IsCallable dumps text jsonschema catalog 1 "auto" (record {
          qualified_name = name;
          server = call.server;
          tool = call.tool;
          arguments = call.arguments;
        })
        × (is_authorized authorize call.server call.tool ≡ true)
    IsJustified index_error = ⊥
    IsJustified outcome = Unit

    call_tool-IsJustified :
        (keys : Option (Option String × Option String)) (c : Call)
        → IsCallable dumps text jsonschema catalog 1 "auto" c
        → IsJustified (call_tool authorize client (remote_call keys c) c.qualified_name)
    unfolding call_tool
    call_tool-IsJustified keys c callable =
        elim (Bool-cases (is_authorized authorize c.server c.tool)) [
          | inl allowed ↦ rw allowed (callable, allowed)
          | inr denied ↦ rw denied tt
        ]

    execute_validated-IsJustified :
        (name : Json) (keys : Option (Option String × Option String)) (calls requests : List Call)
        (rejections : List Rejection)
        → All (IsCallable dumps text jsonschema catalog 1 "auto") calls
        → length calls + length requests + length rejections ≡ 1
        → IsJustified (execute_validated authorize client name keys calls requests rejections)
    unfolding execute_validated length
    execute_validated-IsJustified name keys [] [] [] sound total = cc
    execute_validated-IsJustified name keys [] [] (r ∷ rs) sound total = tt
    execute_validated-IsJustified name keys [] (q ∷ qs) rs sound total = tt
    execute_validated-IsJustified name keys (c ∷ cs) qs rs (callable, sound) total =
        call_tool-IsJustified keys c callable

    -- Whatever `execute` is asked to do, it calls at most a tool of the catalogue whose policy is
    -- `auto`, on that tool's server, with arguments that its schema accepts and after the
    -- authorization has let it pass; and it always has a reason when it rejects.
    pub execute-IsJustified :
        (call : Fields) (idempotency_key execution_id : Option String)
        → IsJustified (
            execute authorize client dumps text jsonschema call catalog idempotency_key
              execution_id)
    unfolding execute length
    execute-IsJustified call idempotency_key execution_id =
        let proposed =
          field "tool" (get "qualified_name" call) (field "arguments" (get "arguments" call) end) in
        let validation = validate_plan dumps text jsonschema (proposed ∷ []) catalog 1 [] in
        execute_validated-IsJustified (get "qualified_name" call)
          (execution_kwargs idempotency_key execution_id) validation.calls
          validation.approval_requests validation.rejected
          (plan_authorized dumps text jsonschema catalog 1 (proposed ∷ []) [] validation refl).0
          (plan_partitions dumps text jsonschema catalog 1 (proposed ∷ []) [] validation refl)

    placed_executes :
        (tool : CatalogTool) (name : String) (arguments : Fields) (p : Planning) (value : Json)
        (keys : Option (Option String × Option String))
        → tool.policy ≡ "auto"
        → p.accepted ≡ []
        → execute_validated authorize client value keys
            (place tool name arguments p).accepted
            (place tool name arguments p).approval_requests
            (place tool name arguments p).rejected
          ≡ call_tool authorize client (remote_call keys (normalized_call tool name arguments)) name
    unfolding place execute_validated
    placed_executes tool name arguments p value keys auto first = rw (auto, first) refl

    callable_executes :
        (idempotency_key execution_id : Option String) (n : ℕ) (c : Call)
        → IsCallable dumps text jsonschema catalog n "auto" c
        → execute authorize client dumps text jsonschema
            (call_fields c)
            catalog
            idempotency_key
            execution_id
          ≡ call_tool authorize client
              (remote_call (execution_kwargs idempotency_key execution_id) c)
              c.qualified_name
    unfolding execute validate_plan check_all take check_proposed check_shape check_named check_tool
        check_call place get length member fingerprints
    callable_executes idempotency_key execution_id n c callable =
        rw
          (
            callable.catalogued, callable.has_policy, callable.fits, callable.same_server,
            callable.same_tool,
          )
          (placed_executes callable.entry c.qualified_name c.arguments
            (record_seen (call_fingerprint dumps c.qualified_name (obj c.arguments))
              (start dumps text jsonschema []))
            (str c.qualified_name) _ callable.has_policy refl)

    -- Every call of a plan is executed as it was planned: handed to `execute` with the same catalogue,
    -- it is validated again and reaches the server and tool of the plan with the planned arguments,
    -- unless the authorization refuses it.
    pub planned_executes :
        (proposed : List Fields) (remaining_calls : ℕ) (observations : List Json)
        (idempotency_key execution_id : Option String) (validated : Plan)
        → validate_plan dumps text jsonschema proposed catalog remaining_calls observations
          ≡ validated
        → All
            (λ c.
              execute authorize client dumps text jsonschema
                (call_fields c)
                catalog
                idempotency_key
                execution_id
              ≡ call_tool authorize client
                  (remote_call (execution_kwargs idempotency_key execution_id) c)
                  c.qualified_name)
            validated.calls
    planned_executes proposed remaining_calls observations idempotency_key execution_id validated
          is =
        All-map (IsCallable dumps text jsonschema catalog remaining_calls "auto") _ validated.calls
          (callable_executes idempotency_key execution_id remaining_calls)
          (plan_authorized dumps text jsonschema catalog remaining_calls proposed observations
            validated is).0

-- ===== src/Mcp/Client.antt =====
-- `MCPClientService.call_tool` of backend/app/mcp/client.py with the hooks that
-- `MCPQuotaService.client_hooks` of backend/app/services/mcp_quota_service.py gives it: a remote call
-- between a reservation and its release. The remote server, or the broker before it, answers
-- anything; meanwhile the callers of the quotas take any steps.
pub mod Release
mod Examples
use code_mate.Mcp.Quota.Booking.{Result, World, reserved, Call}
use code_mate.Mcp.Quota.Steps.{run, Step}
use code_mate.Mcp.Quota.Reserve.{reserve}
use code_mate.Mcp.Quota.Release.{release}
use code_mate.Mcp.Quota.RedisReserve.{Settings}
use code_mate.Mcp.Quota.RedisReserve.{Outside}
use code_mate.Lists.{member}
use text.Mathlib.Text.{◌==◌ as str_eq}
use code_mate.Mcp.Router.Catalog.{Server}
use code_mate.Mcp.Quota.Policy.{Membership, Policy, Context}
use code_mate.Json.{get, end, or_empty, truthy, Fields}
use code_mate.Prelude.{◌&&◌, [], Bool, none, if◌then◌else◌, ◌∷◌, some, ℕ, Option, List, String, ◌≡◌}

-- What the remote call gives: a payload, or an exception.
pub data Remote : Type 0 where
  answered : Fields → Remote
  raised : String → Remote

-- `_server`: the first enabled server of the name.
unfoldable pub find_server : String → List Server → Option Server
find_server name [] = none
find_server name (s ∷ ss) =
    let rest = find_server name ss in if s.enabled && str_eq s.name name then some s else rest

-- A call of `call_tool`, and what its environment does: fresh values for the quota, the remote call,
-- and the steps of others before the release, which comes at its own time.
pub record ToolCall : Type 0 where
  pub server_name : String
  pub tool_name : String
  pub arguments : Option Fields
  pub idempotency_key : Option String
  pub execution_id : Option String
  pub now : ℕ
  pub fresh_id : String
  pub fresh_token : String
  pub random : String
  pub redis_answers : Bool
  pub remote : Remote
  pub others : List Step
  pub event_created_at : ℕ
  pub charge_created_at : String → ℕ
  pub rejection_created_at : ℕ
  pub release_redis_answers : Bool
  pub released : ℕ

-- What the client is built with. `hooks` is the context of the quota, where there are hooks; `digest`
-- is `quota_idempotency_key`, on the parts as texts and a dict.
pub record Client : Type 0 where
  pub servers : List Server
  pub hooks : Option Context
  pub settings : Settings
  pub outside : Outside
  pub policies : List Policy
  pub members : List Membership
  pub digest : List String → Fields → String

-- `context.run_id or secrets.token_hex(16)`
abbrev pub run_or_random : Option String → String → String
run_or_random none random = random
run_or_random (some run) random = if str_eq run "" then random else run

abbrev pub client_key : Client → Context → ToolCall → String
client_key c context t =
    c.digest
      ("client"
        ∷ context.tenant_id
        ∷ run_or_random context.run_id t.random
        ∷ t.server_name
        ∷ t.tool_name
        ∷ [])
      (or_empty t.arguments)

-- The key of `reserve_hook`.
abbrev pub hook_key : Client → Context → ToolCall → Option String → String
hook_key c context t none = client_key c context t
hook_key c context t (some key) =
    if str_eq key ""
    then client_key c context t
    else c.digest ("provided" ∷ context.tenant_id ∷ key ∷ []) end

-- What `reserve_hook` passes to `reserve`.
unfoldable pub reserve_call : Client → Context → ToolCall → Call
reserve_call c context t = record {
  now = t.now;
  fresh_id = t.fresh_id;
  fresh_token = t.fresh_token;
  redis_answers = t.redis_answers;
  context = context;
  server_name = t.server_name;
  tool_name = t.tool_name;
  idempotency_key = hook_key c context t t.idempotency_key;
  execution_id = t.execution_id;
  event_created_at = t.event_created_at;
  charge_created_at = t.charge_created_at;
  rejection_created_at = t.rejection_created_at;
}

-- How `call_tool` ends: an exception of its own, an error of the quota, or what the remote call gave.
pub data Outcome : Type 0 where
  server_not_found : Outcome
  tool_not_allowed : Outcome
  quota_denied : Result → Outcome
  remote_called : Remote → Outcome

-- The outcome that is released: the second argument of `_release_quota`.
abbrev pub release_outcome : Remote → String
release_outcome (answered payload) =
    if truthy (get "isError" payload) then "failed" else "succeeded"
release_outcome (raised text) = "transport_unknown"

-- `call_tool` from the reservation on.
abbrev pub call_reserved : Client → ToolCall → Result × World → Outcome × World
call_reserved c t (reserved r, w) = (
  remote_called t.remote,
  release c.settings t.release_redis_answers t.released (release_outcome t.remote) r
      (run c.settings c.outside t.others w),
)
call_reserved c t (x, w) = (quota_denied x, w)

-- `call_tool` without or with hooks.
abbrev pub call_hooked : Client → ToolCall → Option Context → World → Outcome × World
call_hooked c t none w = (remote_called t.remote, run c.settings c.outside t.others w)
call_hooked c t (some context) w =
    call_reserved c t
      (reserve c.settings c.outside c.policies c.members (reserve_call c context t) w)

abbrev pub call_on : Client → ToolCall → World → Option Server → Outcome × World
call_on c t w none = (server_not_found, w)
call_on c t w (some s) =
    if member t.tool_name s.allowed_tools then call_hooked c t c.hooks w else (tool_not_allowed, w)

unfoldable pub call_tool : Client → ToolCall → World → Outcome × World
unfolding find_server
call_tool c t w = call_on c t w (find_server t.server_name c.servers)

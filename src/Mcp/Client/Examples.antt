-- ===== src/Mcp/Client/Examples.antt =====
-- A client with one server and a quota, and a call of a tool that reports an error.
use code_mate.Lists.{member, length}
use code_mate.Dict.{lookup}
use code_mate.Mcp.Quota.Script.{
  prune, count_keys, count_loop, check_member, check_keys, check_loop, expire_policies,
  reserve_script,
}
use code_mate.Mcp.Quota.RedisReserve.{limits_of, script_arguments, eval_script, redis_reserve}
use code_mate.Mcp.Quota.Usage.{policy_usage}
use code_mate.Mcp.Quota.Check.{check_counts, check_usage, check_policy, check_policies}
use code_mate.Mcp.Quota.Policy.{
  effective_policy_values, is_principal, role_of, principals, filter_matching, matching_policies,
}
use code_mate.Json.{end, bool, field}
use code_mate.Mcp.Client.Release.{call_tool-IsSettled, IsSettled}
use code_mate.Mcp.Client.{
  remote_called, reserve_call, some, Fields, [], find_server, none, answered, String, call_tool,
  ToolCall, Remote, Client,
}
use code_mate.Mcp.Router.Catalog.{Server}
use code_mate.Mcp.Quota.Examples.{settings, outside, context, empty_world, policy, start}
use code_mate.Mcp.Quota.Booking.{find_key, policy_ids, lease_event, new_event}
use code_mate.Mcp.Quota.Reserve.{reserve, settle}
use code_mate.Prelude.{◌+◌, false, refl, ◌∷◌, true, List, ◌≡◌}

abbrev server : Server
server = record { name = "ci"; enabled = true; allowed_tools = "build" ∷ []; tool_policies = [] }

-- A stand-in for the hash of a key.
abbrev last_part : List String → Fields → String
last_part [] d = ""
last_part (x ∷ xs) d = x

abbrev client : Client
client = record {
  servers = server ∷ [];
  hooks = some context;
  settings = settings;
  outside = outside;
  policies = policy ∷ [];
  members = [];
  digest = last_part;
}

abbrev failure : Remote
failure = answered (field "isError" (bool true) end)

abbrev tool_call : ToolCall
tool_call = record {
  server_name = "ci";
  tool_name = "build";
  arguments = none;
  idempotency_key = some "k1";
  execution_id = none;
  event_created_at = start + 1000;
  charge_created_at = λ id. start + 2000;
  rejection_created_at = start + 1000;
  now = start;
  fresh_id = "e1";
  fresh_token = "token1";
  random = "r";
  redis_answers = true;
  remote = failure;
  others = [];
  release_redis_answers = false;
  released = start + 5000000;
}

tool_called : (call_tool client tool_call empty_world).0 ≡ remote_called failure
unfolding call_tool find_server reserve_call member reserve matching_policies filter_matching
    principals role_of is_principal find_key check_policies check_policy effective_policy_values
    policy_usage check_usage check_counts settle redis_reserve eval_script script_arguments
    limits_of reserve_script expire_policies check_loop check_keys check_member count_loop
    count_keys policy_ids lease_event new_event prune lookup length
tool_called = refl

call_tool-IsSettled_example :
    IsSettled client tool_call empty_world (call_tool client tool_call empty_world).1
call_tool-IsSettled_example =
    call_tool-IsSettled client tool_call empty_world refl tt failure tool_called

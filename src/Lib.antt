-- ===== src/Lib.antt =====
-- CodeMate, a coding agent: a model of its core and what has been proved of it.
--
-- The program takes an issue, lets an agent reproduce the failure, plan, patch and test in a loop,
-- runs commands in a sandbox execution plane, and calls remote MCP tools through a durable, audited
-- service with approvals and a circuit breaker. All paths below are under backend/app.
--
-- Parts and files
--   Agent: the repair agent. Agent/State is `FixAgentState` of agent/state.py, Agent/Outcome and
--     Agent/Verdict are agent/verification.py, Agent/Routing and Agent/Graph are agent/graph.py.
--     Agent/Graph/Nodes has what each node of `AgentService._nodes` (services/agent_service.py)
--     writes to the state, and Agent/Graph/Runs makes runs of them, pauses and resumptions
--     included. A tool, a model and a remote server may answer anything, so a node is a relation.
--   Agent/Loop: the local loop of the agent. Actions is agent/actions.py, and State, Updates, Summary
--     and Execute are `LocalAgentExecutor` of agent/loop.py: one step, with the tool that it calls.
--     Planner has the node `plan_next_action` of services/agent_service.py before it.
--   Sandbox/ExecutionStore: `MemoryExecutionStateStore` of sandbox/execution_store.py: `claim` and
--     `complete` as functions on a store of replay records and executions. Sandbox/RedisStore is
--     `RedisExecutionStateStore` of the same file: its Lua scripts on keys that expire.
--   Sandbox/Patches: `normalize_unified_diff_hunks` of sandbox/patches.py.
--   Sandbox/WorkloadIdentity and Sandbox/ExecutionPlane: `issue_assertion` and `verify_assertion` of
--     sandbox/workload_identity.py, and the handler `execute` of sandbox/execution_plane.py on the
--     store: identity, allowlist, claim, run and commit.
--   Mcp/Execution: `MCPExecutionService` of services/mcp_execution_service.py. Row is one row of the
--     table, Methods, Reconcile, Prepare and ExecuteOnce are its methods, and Steps is any
--     interleaving of them.
--   Mcp/Approval: `MCPApprovalService` of services/mcp_approval_service.py, with the two methods of
--     the execution service that write to an approval.
--   Mcp/Circuit: the circuit breaker of services/mcp_operations_service.py.
--   Mcp/Router: `MCPToolRouter` of mcp/router.py. Catalog is the discovery, Arguments the check of
--     arguments, Plan is `validate_plan` and Execute the two calls.
--   Mcp/Quota: `MCPQuotaService` of services/mcp_quota_service.py. Policy, Payload, Methods, Changes
--     and Update are the policies and the methods of an operator, Usage and Check what a call is
--     checked against, Booking, Reserve and Release the two methods of a call on the tables, Script
--     and RedisReserve the limiter in Redis with its Lua script, and Purge the retention. Steps is any
--     interleaving of calls.
--   Mcp/Client: `call_tool` of mcp/client.py: a remote call between its reservation and its release.
--   Core/ReplayCache: the nonces of core/replay_cache.py.
--   Prelude, Json, Text, Lists, Dict: shared names, Python's values, texts and dicts.
--
-- How they meet: the node `call_mcp_tools` pauses the graph when an execution is uncertain, and the
-- graph is entered again from the checkpoint that an approval or an execution keeps. `execute_once`
-- claims an execution, asks the circuit breaker, and records the outcome of the remote call.
-- The node `plan_mcp_tools` plans with the router, `execute_once` calls its `execute`, and a resumed
-- approval its `execute_approved`. A remote call is reserved and released by the hooks of the quotas.
--
-- Conventions: a method that holds a row lock or a mutex is one step. Time is a natural number
-- that each call is given, with no assumption that it grows from call to call unless a theorem
-- states one. Fresh ids and tokens are arguments. An exception is a value of a result type next to
-- the row as it was committed. Functions are structurally recursive; the repetition of the local
-- loop has fuel, the steps that the budgets leave, and so has the loop over the lines of a patch,
-- as many turns as there are lines; both are enough. The times of the quotas and of the Redis store
-- are microseconds, those of the quotas in UTC; `created_at` of a row that the quotas insert is the
-- time of its INSERT, which each call is given. The costs and thresholds of the quotas are floats in
-- the code: a finite one is a whole number of 2 ^ -1074, which is what stands for it here; sums are
-- exact, and NaN and the infinities are left out. Python's `str`, `str.lower`, json, hashlib, pydantic and jsonschema are
-- parameters of the definitions that use them, without hypotheses but those that a theorem names.
--
-- Not modelled: prompts and model calls, HTTP, containers and files, the database engine (a
-- transaction is a step), floating-point latencies and metrics, the repair and the reports of the
-- quotas, the registry and tenancy, retrieval, evaluation and the frontend.
pub mod Prelude
pub mod Json
pub mod Text
pub mod Lists
pub mod Mcp
pub mod Dict
pub mod Sandbox
pub mod Agent
pub mod Core

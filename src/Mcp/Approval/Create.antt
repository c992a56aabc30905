-- ===== src/Mcp/Approval/Create.antt =====
-- `create_pending` and `verify_checkpoint`: the table of approvals, and the run that waits for one.
-- `canonical_json`, `sha256_json` and `jsonable` rest on Python's json and hashlib, so they are
-- parameters, like `print` for `str`; the time and the fresh id are arguments.
use text.Mathlib.Text.{◌==◌ as str_eq}
use code_mate.Prelude.{
  ℕ, ◌+◌, String, Bool, not, ◌&&◌, Option, none, some, List, [], ◌∷◌, max, ltb, if◌then◌else◌,
}
use code_mate.Text.{length}
use code_mate.Json.{Json, Fields, str, obj, end, get, put, truthy}
use code_mate.Mcp.Approval.Row.{pending, is_active, Approval, Settings}

-- The fields of `AgentRun` that the method writes, and its key.
pub record AgentRun : Type 0 where
  pub id : String
  pub status : String
  pub final_summary : Option String
  pub failure_reason : Option String
  pub updated_at : ℕ

pub record ToolCall : Type 0 where
  pub qualified_name : String
  pub server : String
  pub tool : String
  pub arguments : Json

abbrev pub is_active_for : String → Approval → Bool
is_active_for run_id a = str_eq a.run_id run_id && is_active a.status

-- The later of an approval and an approval or None.
abbrev pub later_of : Approval → Option Approval → Option Approval
later_of a none = some a
later_of a (some b) = if ltb a.requested_at b.requested_at then some b else some a

-- The active approval of the run that was requested last.
unfoldable pub find_active : String → List Approval → Option Approval
find_active run_id [] = none
find_active run_id (a ∷ db) =
    let rest = find_active run_id db in if is_active_for run_id a then later_of a rest else rest

-- `value or {}`
abbrev pub or_object : Json → Json
or_object v = if truthy v then v else obj end

pub data Created : Type 0 where
  created : Approval → Created
  disabled checkpoint_too_large : Created

abbrev pub waiting_run : ℕ → AgentRun → AgentRun
waiting_run now r = record r {
  status = "waiting_approval";
  final_summary = some "Agent 正在等待 MCP 工具审批。";
  failure_reason = none;
  updated_at = now;
}

-- `{**checkpoint, "resume_from": "mcp_observe", "mcp_pending_approval_id": id}`
abbrev pub checkpoint_data : String → Fields → Fields
checkpoint_data id checkpoint =
    put "mcp_pending_approval_id" (str id) (put "resume_from" (str "mcp_observe") checkpoint)

module _ (jsonable : Json → Json) (canonical : Json → String) (sha256 : String → String)
    (print : Json → String) where
  -- `str(catalog_entry.get("policy") or "deny")`
  abbrev pub policy_text : Fields → String
  policy_text entry = if truthy (get "policy" entry) then print (get "policy" entry) else "deny"

  unfoldable pub pending_row :
      Settings → ℕ → String → String → ToolCall → Fields → Fields → Approval
  pending_row c now id run_id call entry checkpoint =
      let arguments = jsonable (or_object call.arguments) in
      let saved = jsonable (obj (checkpoint_data id checkpoint)) in
      record {
        id = id;
        run_id = run_id;
        qualified_name = call.qualified_name;
        server_name = call.server;
        tool_name = call.tool;
        arguments_json = arguments;
        arguments_hash = sha256 (canonical arguments);
        tool_schema_json = jsonable (or_object (get "input_schema" entry));
        catalog_entry_json = jsonable (obj entry);
        policy_snapshot = policy_text entry;
        checkpoint_json = saved;
        checkpoint_hash = sha256 (canonical saved);
        status = pending;
        decision = none;
        decision_note = none;
        decided_by = none;
        decided_provider = none;
        result_json = none;
        error_message = none;
        version = 1;
        requested_at = now;
        expires_at = now + max 1 c.approval_ttl_seconds;
        decided_at = none;
        execution_started_at = none;
        execution_finished_at = none;
        updated_at = now;
      }

  unfoldable pub create_pending :
      Settings
      → ℕ
      → String
      → AgentRun
      → ToolCall
      → Fields
      → Fields
      → List Approval
      → Created × AgentRun × List Approval
  unfolding pending_row
  create_pending c now id r call entry checkpoint db =
      if not c.approval_enabled then (disabled, r, db) else elim (find_active r.id db) [
        | some a ↦ (created a, r, db)
        | none ↦
            let a = pending_row c now id r.id call entry checkpoint in
            if ltb c.approval_max_checkpoint_chars (length (canonical a.checkpoint_json))
            then (checkpoint_too_large, r, db)
            else (created a, waiting_run now r, a ∷ db)
      ]

  -- `verify_checkpoint`
  unfoldable pub verify_checkpoint : Approval → Bool
  verify_checkpoint a = str_eq (sha256 (canonical a.checkpoint_json)) a.checkpoint_hash

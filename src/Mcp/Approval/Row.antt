-- ===== src/Mcp/Approval/Row.antt =====
-- The row of `MCPToolApproval`, the settings that its methods read, and their results.
use text.Mathlib.Text.{◌==◌ as str_eq}
use code_mate.Prelude.{ℕ, String, Bool, true, false, Option, some, if◌then◌else◌}
use code_mate.Json.{Json}

pub data Status : Type 0 where
  pending queued resuming reconciliation_required completed failed : Status

-- `status in ACTIVE_APPROVAL_STATUSES`
abbrev pub is_active : Status → Bool
is_active completed = false
is_active failed = false
is_active s = true

abbrev pub is_pending : Status → Bool
is_pending pending = true
is_pending s = false

pub data Decision : Type 0 where
  approved rejected : Decision

-- `"approved" if decision == "approve" else "rejected"`
abbrev pub normalized_decision : String → Decision
normalized_decision d = if str_eq d "approve" then approved else rejected

-- `approval.decision == decision`
abbrev pub is_decision : Option Decision → Decision → Bool
is_decision (some approved) approved = true
is_decision (some rejected) rejected = true
is_decision o d = false

pub record Approval : Type 0 where
  pub id : String
  pub run_id : String
  pub qualified_name : String
  pub server_name : String
  pub tool_name : String
  pub arguments_json : Json
  pub arguments_hash : String
  pub tool_schema_json : Json
  pub catalog_entry_json : Json
  pub policy_snapshot : String
  pub checkpoint_json : Json
  pub checkpoint_hash : String
  pub status : Status
  pub decision : Option Decision
  pub decision_note : Option String
  pub decided_by : Option String
  pub decided_provider : Option String
  pub result_json : Option Json
  pub error_message : Option String
  pub version : ℕ
  pub requested_at : ℕ
  pub expires_at : ℕ
  pub decided_at : Option ℕ
  pub execution_started_at : Option ℕ
  pub execution_finished_at : Option ℕ
  pub updated_at : ℕ

pub record Settings : Type 0 where
  pub approval_enabled : Bool
  pub approval_max_checkpoint_chars : ℕ
  pub approval_ttl_seconds : ℕ
  pub approval_resume_stale_seconds : ℕ

-- The row is returned, None is returned, or an exception is raised.
pub data Reply : Type 0 where
  returned nothing not_found version_conflict already_decided : Reply

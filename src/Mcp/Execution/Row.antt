-- ===== src/Mcp/Execution/Row.antt =====
-- The row of `MCPToolExecution`, the settings that its methods read, and their errors.
use code_mate.Prelude.{ℕ, ◌+◌, String, Bool, true, false, Option, none, some, max, ltb}
use code_mate.Json.{Json, Fields}

pub data Status : Type 0 where
  prepared executing succeeded failed unknown reconciling : Status

-- `status in TERMINAL_EXECUTION_STATUSES`
abbrev pub is_terminal : Status → Bool
is_terminal succeeded = true
is_terminal failed = true
is_terminal s = false

abbrev pub is_executing : Status → Bool
is_executing executing = true
is_executing s = false

abbrev pub is_prepared : Status → Bool
is_prepared prepared = true
is_prepared s = false

abbrev pub is_unknown : Status → Bool
is_unknown unknown = true
is_unknown s = false

pub record Execution : Type 0 where
  pub id : String
  pub run_id : String
  pub approval_id : Option String
  pub qualified_name : String
  pub server_name : String
  pub tool_name : String
  pub arguments_json : Json
  pub arguments_hash : String
  pub idempotency_key : String
  pub idempotency_mode : String
  pub retry_safe : Bool
  pub status : Status
  pub attempt_count : ℕ
  pub recovery_count : ℕ
  pub deduplication_hits : ℕ
  pub lease_token : Option String
  pub lease_owner : Option String
  pub lease_expires_at : Option ℕ
  pub result_json : Option Fields
  pub error_message : Option String
  pub reconciliation_note : Option String
  pub reconciled_by : Option String
  pub reconciled_provider : Option String
  pub reconciled_at : Option ℕ
  pub checkpoint_json : Option Json
  pub checkpoint_hash : Option String
  pub version : ℕ
  pub created_at : ℕ
  pub started_at : Option ℕ
  pub finished_at : Option ℕ
  pub updated_at : ℕ

-- Seconds; `client_timeout_seconds` is the configured timeout rounded up.
pub record Settings : Type 0 where
  pub execution_lease_seconds : ℕ
  pub client_timeout_seconds : ℕ
  pub execution_max_attempts : ℕ
  pub execution_max_checkpoint_chars : ℕ

unfoldable pub effective_execution_lease_seconds : Settings → ℕ
effective_execution_lease_seconds c =
    max (max 1 c.execution_lease_seconds) (c.client_timeout_seconds + 5)

-- The exceptions of the service.
pub data Error : Type 0 where
  not_found in_progress reconciliation_required lease_lost version_conflict : Error
  unsupported_action wrong_status retry_unsafe attempts_exhausted other_request : Error
  checkpoint_too_large lease_not_acquired : Error

pub data Result (A : Type 0) : Type 0 where
  ok : A → Result A
  err : Error → Result A

-- `lease_expires_at and now < lease_expires_at`
abbrev pub is_leased : ℕ → Option ℕ → Bool
is_leased now none = false
is_leased now (some expires) = ltb now expires

-- `value or default`, for a time or None
abbrev pub or_time : Option ℕ → ℕ → Option ℕ
or_time none d = some d
or_time (some t) d = some t

-- ===== src/Mcp/Execution/Prepare.antt =====
-- `MCPExecutionService.prepare`: the table of executions, with one row for each idempotency key.
-- `jsonable`, `canonical_json` and `sha256_json` rest on Python's json and hashlib, so they are
-- parameters; the
-- race of two inserts of one key is settled by the table's constraint, and its loser reads the
-- winner's row, as if it had come second.
use text.Mathlib.Text.{◌==◌ as str_eq}
use code_mate.Prelude.{
  ℕ, String, Bool, true, false, not, ◌||◌, Option, none, some, List, [], ◌∷◌, ltb, if◌then◌else◌,
}
use code_mate.Text.{length}
use code_mate.Json.{Json, obj, end, truthy}
use code_mate.Mcp.Execution.Row.{
  prepared, Execution, Settings, other_request, checkpoint_too_large, Result, ok, err,
}

pub record ToolCall : Type 0 where
  pub qualified_name : String
  pub server : String
  pub tool : String
  pub arguments : Json

pub record PrepareRequest : Type 0 where
  pub run_id : String
  pub call : ToolCall
  pub idempotency_key : String
  pub idempotency_mode : String
  pub approval_id : Option String
  pub checkpoint : Option Json

unfoldable pub find : String → List Execution → Option Execution
find key [] = none
find key (e ∷ db) = if str_eq e.idempotency_key key then some e else find key db

abbrev map_option {ℓ κ} : {A : Type ℓ} {B : Type κ} → (A → B) → Option A → Option B
map_option f none = none
map_option f (some a) = some (f a)

-- `a != b` for texts or None, negated
abbrev pub same_text : Option String → Option String → Bool
same_text none none = true
same_text none (some t) = false
same_text (some s) none = false
same_text (some s) (some t) = str_eq s t

-- `_verify_same_request`: whether it raises.
abbrev pub differs : String → PrepareRequest → Execution → Bool
differs arguments_hash r e =
    not (str_eq e.run_id r.run_id)
    || not (same_text e.approval_id r.approval_id)
    || not (str_eq e.qualified_name r.call.qualified_name)
    || not (str_eq e.arguments_hash arguments_hash)

module _ (jsonable : Json → Json) (canonical : Json → String) (sha256 : String → String) where
  -- `jsonable(call.get("arguments") or {})`; a missing key is null.
  abbrev pub arguments_of : PrepareRequest → Json
  arguments_of r = jsonable (if truthy r.call.arguments then r.call.arguments else obj end)

  -- `jsonable(checkpoint) if checkpoint is not None else None`
  abbrev pub checkpoint_of : PrepareRequest → Option Json
  checkpoint_of r = map_option jsonable r.checkpoint

  abbrev pub sha256_json : Json → String
  sha256_json v = sha256 (canonical v)

  abbrev pub checkpoint_hash : Option Json → Option String
  checkpoint_hash none = none
  checkpoint_hash (some v) = some (sha256 (canonical v))

  abbrev pub is_too_large : Settings → Option Json → Bool
  is_too_large c none = false
  is_too_large c (some v) = ltb c.execution_max_checkpoint_chars (length (canonical v))

  -- The row that `prepare` inserts; `id` is the fresh key of the table.
  abbrev pub prepared_row : ℕ → String → PrepareRequest → Execution
  prepared_row now id r = record {
    id = id;
    run_id = r.run_id;
    approval_id = r.approval_id;
    qualified_name = r.call.qualified_name;
    server_name = r.call.server;
    tool_name = r.call.tool;
    arguments_json = arguments_of r;
    arguments_hash = sha256_json (arguments_of r);
    idempotency_key = r.idempotency_key;
    idempotency_mode = r.idempotency_mode;
    retry_safe = str_eq r.idempotency_mode "metadata";
    status = prepared;
    attempt_count = 0;
    recovery_count = 0;
    deduplication_hits = 0;
    lease_token = none;
    lease_owner = none;
    lease_expires_at = none;
    result_json = none;
    error_message = none;
    reconciliation_note = none;
    reconciled_by = none;
    reconciled_provider = none;
    reconciled_at = none;
    checkpoint_json = checkpoint_of r;
    checkpoint_hash = checkpoint_hash (checkpoint_of r);
    version = 1;
    created_at = now;
    started_at = none;
    finished_at = none;
    updated_at = now;
  }

  unfoldable pub prepare :
      Settings → ℕ → String → PrepareRequest → List Execution → Result Execution × List Execution
  prepare c now id r db = elim (find r.idempotency_key db) [
    | some e ↦
        if differs (sha256_json (arguments_of r)) r e then (err other_request, db) else (ok e, db)
    | none ↦
        if is_too_large c (checkpoint_of r)
        then (err checkpoint_too_large, db)
        else (ok (prepared_row now id r), prepared_row now id r ∷ db)
  ]

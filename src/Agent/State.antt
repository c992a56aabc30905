-- ===== src/Agent/State.antt =====
-- `FixAgentState` of backend/app/agent/state.py: the fields that the verdict and the routes of the
-- repair graph read. The TypedDict is partial, so a missing key is `none`.
use text.Mathlib.Text.{◌==◌ as str_eq}
use code_mate.Prelude.{ℕ, String, Bool, not, Option, none, some}
use code_mate.Prelude.{false}
use code_mate.Json.{Json, Fields, end, get}

pub record FixAgentState : Type 0 where
  pub baseline_test_result : Option Fields
  pub apply_result : Option Fields
  pub targeted_test_result : Option Fields
  pub regression_test_result : Option Fields
  pub action_outcome : Option Fields
  pub finish_reason : Option String
  pub patch_is_duplicate : Option Bool
  pub mcp_tool_plan : Option Fields
  pub mcp_pending_approval_id : Option String
  pub mcp_pending_execution_id : Option String
  pub mcp_router_round : Option ℕ
  pub mcp_max_rounds : Option ℕ
  pub mcp_call_count : Option ℕ
  pub mcp_max_calls : Option ℕ
  pub resume_from : Option String
  pub iterations : Option ℕ
  pub max_iterations : Option ℕ

-- `state.get(key, default)`
abbrev pub get_or {ℓ} : {A : Type ℓ} → Option A → A → A
get_or none d = d
get_or (some a) d = a

-- `(state.get(key) or {}).get(name)`
abbrev pub entry : Option Fields → String → Json
entry d k = get k (get_or d end)

-- `bool(state.get(key))` for a text
abbrev pub has_text : Option String → Bool
has_text none = false
has_text (some s) = not (str_eq s "")

-- `state.get(key) == text`
abbrev pub equals_text : Option String → String → Bool
equals_text none t = false
equals_text (some s) t = str_eq s t

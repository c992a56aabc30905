-- ===== src/Agent/Loop/Updates.antt =====
-- The guards and updates of `LocalAgentExecutor` (backend/app/agent/loop.py): its budgets, what a
-- rejection and a forced finish write, and the history. A step is given what the planner proposes,
-- the time, and what the tools answer. Parameters: json.dumps, hashlib, and `parse_time` for
-- datetime.fromisoformat.
use text.Mathlib.Text.{◌==◌ as str_eq}
use code_mate.Prelude.{
  ℕ, ◌+◌, String, Bool, true, false, ◌||◌, Option, none, some, List, [], ◌∷◌, ◌++◌, leb,
  if◌then◌else◌,
}
use code_mate.Lists.{length, last, member}
use code_mate.Text.{take}
use code_mate.Json.{Json, Fields, str, end, field, get, get_default}
use code_mate.Agent.Loop.Actions.{Action, ToolCall, action_name, model_dump, action_fingerprint}
use code_mate.Agent.Loop.State.{
  Settings, plan, final, Outcome, HistoryEntry, LoopState, diagnosis_text,
}

-- What one step is given.
pub record Input : Type 0 where
  pub raw_action : Fields
  pub now : ℕ
  pub timestamp : String
  pub tools : ToolCall → Json

-- `_action_arguments`
unfoldable pub action_arguments : Fields → Fields
action_arguments end = end
action_arguments (field k v d) =
    let rest = action_arguments d in
    if str_eq k "action" || str_eq k "hypothesis" || str_eq k "rationale"
    then rest
    else field k v rest

-- `_append_bounded_unique`
abbrev pub append_bounded_unique : List String → String → ℕ → List String
append_bounded_unique items value limit =
    last limit (if member value items then items else items ++ (value ∷ []))

-- `hypotheses or list(state.get("hypotheses") or [])`
abbrev pub or_state : Option (List String) → List String → List String
or_state none s = s
or_state (some []) s = s
or_state (some (h ∷ hs)) s = h ∷ hs

module _ (c : Settings) (dumps : Json → String) (sha256 : String → String)
    (parse_time : String → Option ℕ) where
  abbrev pub fingerprint : Action → String
  fingerprint a = action_fingerprint dumps sha256 a

  -- `_deadline_reached`: a deadline that cannot be read counts as reached.
  unfoldable pub deadline_reached : ℕ → Option String → Bool
  deadline_reached now none = false
  deadline_reached now (some raw) =
      if str_eq raw ""
      then false
      else elim (parse_time raw) [ none ↦ true | some deadline ↦ leb deadline now ]

  -- `_tool_budget_violation`
  unfoldable pub tool_budget_violation : ℕ → LoopState → Option String
  tool_budget_violation now s =
      if deadline_reached now s.agent_loop_deadline_at
      then some "agent_loop_time_budget_exhausted"
      else if leb c.max_local_tool_calls s.local_tool_call_count
      then some "agent_local_tool_call_budget_exhausted"
      else none

  -- `planner_budget_violation`
  unfoldable pub planner_budget_violation : ℕ → LoopState → Option String
  planner_budget_violation now s =
      if deadline_reached now s.agent_loop_deadline_at
      then some "agent_loop_time_budget_exhausted"
      else if leb c.max_planner_calls s.local_planner_call_count
      then some "agent_planner_call_budget_exhausted"
      else if leb c.max_planner_tokens s.local_planner_token_count
      then some "agent_planner_token_budget_exhausted"
      else if leb c.max_no_progress_steps s.no_progress_count
      then some "agent_no_progress_limit_reached"
      else none

  -- `_append_history`
  unfoldable pub append_history : Input → LoopState → Action → String → String → List HistoryEntry
  append_history i s a status observation = last c.max_action_history (
      s.action_history
      ++ (record {
        sequence = length s.action_history + 1;
        action = str (action_name a.request);
        arguments = action_arguments (model_dump a);
        hypothesis = str a.hypothesis;
        rationale = str a.rationale;
        fingerprint = some (fingerprint a);
        status = status;
        observation = take 4000 observation;
        timestamp = i.timestamp;
      }
          ∷ []))

  -- `_guardrail_rejection`
  unfoldable pub guardrail_rejection :
      Input → LoopState → Fields → String → Option (List String) → LoopState
  guardrail_rejection i s raw reason hypotheses =
      let no_progress_count = s.no_progress_count + 1 in
      let stops = leb c.max_no_progress_steps no_progress_count in
      let final_hypotheses = or_state hypotheses s.hypotheses in
      record s {
        current_action = raw;
        action_outcome = record {
          route = if stops then final else plan;
          ok = false;
          reason = none;
          guardrail = some reason;
          observation = none;
          evidence_id = none;
        };
        action_history = last c.max_action_history (
            s.action_history
            ++ (record {
              sequence = length s.action_history + 1;
              action = get_default "action" raw (str "InvalidAction");
              arguments = action_arguments raw;
              hypothesis = get "hypothesis" raw;
              rationale = get "rationale" raw;
              fingerprint = none;
              status = "rejected";
              observation = reason;
              timestamp = i.timestamp;
            }
                ∷ []));
        hypotheses = final_hypotheses;
        no_progress_count = no_progress_count;
        finish_reason = if stops then some reason else none;
        diagnosis = diagnosis_text final_hypotheses s.evidence;
      }

  -- The updates of `_forced_finish`, and of `Finish` and `GeneratePatch`.
  abbrev pub routed :
      Input
      → LoopState
      → Action
      → List String
      → String
      → String
      → Outcome
      → Option String
      → LoopState
  routed i s a hypotheses status observation outcome reason = record s {
    current_action = model_dump a;
    action_outcome = outcome;
    action_history = append_history i s a status observation;
    hypotheses = hypotheses;
    finish_reason = reason;
    diagnosis = diagnosis_text hypotheses s.evidence;
  }

  abbrev pub forced_finish : Input → LoopState → Action → String → List String → LoopState
  forced_finish i s a reason hypotheses =
      routed i s a hypotheses "rejected" reason
        (record {
          route = final;
          ok = false;
          reason = none;
          guardrail = some reason;
          observation = none;
          evidence_id = none;
        })
        (some reason)

-- ===== src/Agent/Loop/State.antt =====
-- The part of `FixAgentState` that the local loop reads and writes, and its settings
-- (backend/app/agent/state.py, backend/app/agent/loop.py, backend/app/core/config.py). A missing key
-- has the default that the loop reads it with.
use Prim.Native.String.{◌++◌ as str_append}
use code_mate.Prelude.{ℕ, String, Bool, Option, List, [], ◌∷◌}
use code_mate.Lists.{last}
use code_mate.Json.{Json, Fields}
use code_mate.Dict.{Dict}

pub record Settings : Type 0 where
  pub max_local_tool_calls : ℕ
  pub max_planner_calls : ℕ
  pub max_planner_tokens : ℕ
  pub max_no_progress_steps : ℕ
  pub max_read_lines : ℕ
  pub max_evidence_items : ℕ
  pub max_action_history : ℕ
  pub allowed_test_commands : List String

pub data Route : Type 0 where
  plan : Route
  generate : Route
  final : Route

-- `action_outcome`; the keys that are not there are none.
pub record Outcome : Type 0 where
  pub route : Route
  pub ok : Bool
  pub reason : Option String
  pub guardrail : Option String
  pub observation : Option String
  pub evidence_id : Option String

pub record Evidence : Type 0 where
  pub id : String
  pub action : String
  pub summary : String
  pub result_fingerprint : String

pub record HistoryEntry : Type 0 where
  pub sequence : ℕ
  pub action : Json
  pub arguments : Fields
  pub hypothesis : Json
  pub rationale : Json
  pub fingerprint : Option String
  pub status : String
  pub observation : String
  pub timestamp : String

pub record LoopState : Type 0 where
  pub current_action : Fields
  pub action_outcome : Outcome
  pub action_history : List HistoryEntry
  pub hypotheses : List String
  pub evidence : List Evidence
  pub evidence_fingerprints : List String
  pub local_action_fingerprints : List String
  pub local_tool_call_count : ℕ
  pub local_planner_call_count : ℕ
  pub local_planner_token_count : ℕ
  pub no_progress_count : ℕ
  pub finish_reason : Option String
  pub files : Dict String
  pub retrieved_chunks : Json
  pub code_graphs : List Json
  pub diagnostic_test_result : Json
  pub agent_loop_deadline_at : Option String
  pub diagnosis : String

-- `"\n".join(f"- {item}" for item in items)`
unfoldable pub hypothesis_lines : List String → String
hypothesis_lines [] = ""
hypothesis_lines (h ∷ []) = str_append "- " h
hypothesis_lines (h ∷ (k ∷ hs)) =
    let rest = hypothesis_lines (k ∷ hs) in str_append "- " (str_append h (str_append "\n" rest))

abbrev pub evidence_line : Evidence → String
evidence_line e = str_append "- [" (str_append e.id (str_append "] " e.summary))

unfoldable pub evidence_lines : List Evidence → String
evidence_lines [] = ""
evidence_lines (e ∷ []) = evidence_line e
evidence_lines (e ∷ (f ∷ es)) =
    let rest = evidence_lines (f ∷ es) in str_append (evidence_line e) (str_append "\n" rest)

-- `lines or "- None yet"`: the lines are empty for an empty list only.
abbrev pub or_none_yet {ℓ} : {A : Type ℓ} → List A → String → String
or_none_yet [] lines = "- None yet"
or_none_yet (x ∷ xs) lines = lines

-- `_diagnosis`
unfoldable pub diagnosis_text : List String → List Evidence → String
diagnosis_text hypotheses evidence =
    let h = last 8 hypotheses in
    let e = last 12 evidence in
    str_append "Current hypotheses:\n" (
      str_append (or_none_yet h (hypothesis_lines h))
        (str_append "\n\nEvidence:\n" (or_none_yet e (evidence_lines e))))

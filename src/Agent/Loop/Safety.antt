-- ===== src/Agent/Loop/Safety.antt =====
-- Which calls of tools the local loop makes.
use code_mate.Prelude.{
  subst, sym, ℕ, ◌+◌, ◌≤◌, ◌<◌, ◌≡◌, refl, sym, String, true, false, Option, none, some, List,
  arith,
}
use code_mate.Lists.{member, member-last}
use code_mate.Json.{Json, Fields}
use code_mate.Agent.Loop.Actions.{
  Action, Request, search_code, read_file, list_files, find_symbol, find_references,
  get_import_graph, get_call_graph, run_tests, generate_patch, finish, ToolCall, tools_read_file,
  tools_run_tests, tool_call, action_fingerprint,
}
use code_mate.Agent.Loop.State.{Settings, LoopState}
use code_mate.Agent.Loop.Updates.{
  Input, deadline_reached, tool_budget_violation, guardrail_rejection,
}
use code_mate.Agent.Loop.Execute.{Validation, valid, argument_violation, observe, execute}
use code_mate.Agent.Loop.Cases.{execute-Ends}

-- A file is read in a window of at most the lines of the settings, and only the commands of the
-- allowlist are run.
abbrev pub IsAllowed : Settings → ToolCall → Type 0
IsAllowed c (tools_read_file path start_line end_line) =
    end_line + 1 ≤ start_line + c.max_read_lines
IsAllowed c (tools_run_tests command) = member command c.allowed_test_commands ≡ true
IsAllowed c call = Unit

abbrev IsAllowedIfAny : Settings → Option ToolCall → Type 0
IsAllowedIfAny c none = Unit
IsAllowedIfAny c (some call) = IsAllowed c call

tool_call-IsAllowed :
    (c : Settings) (r : Request)
    → argument_violation c r ≡ none
    → IsAllowedIfAny c (tool_call c.max_read_lines r)
unfolding argument_violation tool_call
tool_call-IsAllowed c (read_file p f t) bounds = ground arith
tool_call-IsAllowed c (run_tests t) bounds = ground arith
tool_call-IsAllowed c (search_code q k) bounds = tt
tool_call-IsAllowed c (list_files p) bounds = tt
tool_call-IsAllowed c (find_symbol s) bounds = tt
tool_call-IsAllowed c (find_references s) bounds = tt
tool_call-IsAllowed c (get_import_graph p d n) bounds = tt
tool_call-IsAllowed c (get_call_graph s d n) bounds = tt
tool_call-IsAllowed c generate_patch bounds = tt
tool_call-IsAllowed c (finish reason) bounds = tt

module _ (c : Settings) (validate : Fields → Validation) (dumps : Json → String)
    (sha256 : String → String) (text : Json → String) (parse_time : String → Option ℕ)
    (summary : Action → Json → String) where
  -- A step without a call counts none, and a step with one is allowed it, within the budget and
  -- before the deadline, and counts it.
  abbrev pub IsGuarded : Input → LoopState → LoopState × Option ToolCall → Type 0
  IsGuarded i s (t, none) = t.local_tool_call_count ≡ s.local_tool_call_count
  IsGuarded i s (t, some call) =
      IsAllowed c call
      × (s.local_tool_call_count < c.max_local_tool_calls)
      × (deadline_reached c dumps sha256 parse_time i.now s.agent_loop_deadline_at ≡ false)
      × (t.local_tool_call_count ≡ s.local_tool_call_count + 1)

  -- Whatever the planner proposes, valid or not, a step calls at most one tool, and only while the
  -- budget of calls is not used up and the deadline not reached; a file is read in a window of at most
  -- the lines of the settings, a command is run only from the allowlist, and every call is counted.
  pub execute-IsGuarded :
      (i : Input) (s : LoopState)
      → IsGuarded i s (execute c validate dumps sha256 text parse_time summary i s)
  unfolding guardrail_rejection observe tool_budget_violation
  execute-IsGuarded i s =
      execute-Ends c validate dumps sha256 text parse_time summary {P = IsGuarded i s} i s (record {
        rejects = λ raw reason hypotheses. refl;
        forced = λ a reason hypotheses. refl;
        finishes = λ a hypotheses reason. refl;
        generates = λ a hypotheses. refl;
        observes = λ a hypotheses call passes. (
          subst (IsAllowedIfAny c) passes.dispatched
              (tool_call-IsAllowed c a.request passes.in_bounds),
          ground (arith, passes.in_budget),
          ground (arith, passes.in_budget),
          refl,
        );
      })

  abbrev Remembers : Input → Action → LoopState × Option ToolCall → Type 0
  Remembers i a r =
      (call : ToolCall)
      → r.1 ≡ some call
      → validate i.raw_action ≡ valid a
      → member (action_fingerprint dumps sha256 a) r.0.local_action_fingerprints ≡ true

  same_action : {a b : Action} {v : Validation} → v ≡ valid a → v ≡ valid b → a ≡ b
  same_action h k = cc

  -- A call leaves the fingerprint of its action behind.
  execute-Remembers :
      (i : Input) (s : LoopState) (a : Action)
      → Remembers i a (execute c validate dumps sha256 text parse_time summary i s)
  unfolding observe
  execute-Remembers i s a =
      execute-Ends c validate dumps sha256 text parse_time summary {P = Remembers i a} i s (record {
        rejects = λ raw reason hypotheses call called accepted. cc;
        forced = λ b reason hypotheses call called accepted. cc;
        finishes = λ b hypotheses reason call called accepted. cc;
        generates = λ b hypotheses call called accepted. cc;
        observes = λ b hypotheses made passes call called accepted.
            rw (same_action accepted passes.accepted) (
              member-last c.max_action_history (action_fingerprint dumps sha256 b)
                s.local_action_fingerprints);
      })

  clash :
      {a b : Action} (fingerprints : List String)
      → b ≡ a
      → member (action_fingerprint dumps sha256 b) fingerprints ≡ true
      → member (action_fingerprint dumps sha256 a) fingerprints ≡ false
      → (call : Option ToolCall) → call ≡ none
  clash fingerprints same old is_new call = cc

  -- An action whose fingerprint is remembered makes no call.
  execute-remembered :
      (j : Input) (t : LoopState) (b : Action)
      → validate j.raw_action ≡ valid b
      → member (action_fingerprint dumps sha256 b) t.local_action_fingerprints ≡ true
      → (execute c validate dumps sha256 text parse_time summary j t).1 ≡ none
  execute-remembered j t b accepted old =
      execute-Ends c validate dumps sha256 text parse_time summary {P = λ r. r.1 ≡ none} j t
        (record {
          rejects = λ raw reason hypotheses. refl;
          forced = λ a reason hypotheses. refl;
          finishes = λ a hypotheses reason. refl;
          generates = λ a hypotheses. refl;
          observes = λ a hypotheses call passes.
              clash t.local_action_fingerprints (same_action accepted passes.accepted) old
                passes.is_new _;
        })

  -- No request is made twice in a row by rewording it: after a step that called a tool, a step with
  -- the same action and the same arguments makes no call, whatever its hypothesis and rationale say.
  pub reworded_not_repeated :
      (i j : Input) (s : LoopState) (a b : Action) {call : ToolCall}
      → validate i.raw_action ≡ valid a
      → validate j.raw_action ≡ valid b
      → a.request ≡ b.request
      → (execute c validate dumps sha256 text parse_time summary i s).1 ≡ some call
      → (execute c validate dumps sha256 text parse_time summary j
          (execute c validate dumps sha256 text parse_time summary i s).0).1
        ≡ none
  unfolding action_fingerprint
  reworded_not_repeated i j s a b {call} first second same called =
      let t = (execute c validate dumps sha256 text parse_time summary i s).0 in
      execute-remembered j t b second (rw (sym same) (execute-Remembers i s a call called first))

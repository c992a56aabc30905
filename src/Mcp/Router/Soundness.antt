-- ===== src/Mcp/Router/Soundness.antt =====
-- What `validate_plan` lets through: the catalogue, the budget and the calls that came before.
use code_mate.Prelude.{min, sym, ℕ, suc, ◌+◌, ◌≤◌, ◌≡◌, refl, String, none, List, [], ◌∷◌, arith}
use code_mate.Lists.{length-take, length, take, All, All-append, length-append}
use code_mate.Json.{Json, Fields}
use code_mate.Mcp.Router.Arguments.{SchemaCheck, nonempty, validate_tool_arguments}
use code_mate.Mcp.Router.Plan.{
  CatalogTool, Planning, Plan, Call, normalized_call, check_proposed, check_all, start,
  validate_plan,
}
use code_mate.Mcp.Router.Cases.{IsCatalogued, Passes, Ends, check_proposed-Ends, check_all-Ends}

module _ (dumps : Json → String) (text : Json → String)
    (jsonschema : Json → Fields → SchemaCheck) where
  module _ (catalog : List CatalogTool) (remaining_calls : ℕ) where
    -- A tool of the catalogue with the policy stands behind the call, and its schema accepts the
    -- arguments.
    pub record IsCallable (policy : String) (c : Call) : Type 0 where
      pub entry : CatalogTool
      pub catalogued : IsCatalogued catalog c.qualified_name entry
      pub has_policy : entry.policy ≡ policy
      pub same_server : c.server ≡ entry.server
      pub same_tool : c.tool ≡ entry.name
      pub fits : nonempty (validate_tool_arguments jsonschema entry.input_schema c.arguments) ≡ none

    abbrev IsSound : Planning → Type 0
    IsSound p =
        All (IsCallable "auto") p.accepted
        × All (IsCallable "approval_required") p.approval_requests
        × (length p.accepted + length p.approval_requests ≤ remaining_calls)

    callable :
        {tool : CatalogTool} {name : String} {arguments : Fields} {p : Planning} {policy : String}
        → Passes dumps text jsonschema remaining_calls catalog tool name arguments p
        → tool.policy ≡ policy
        → IsCallable policy (normalized_call tool name arguments)
    callable {tool} passes has = record {
      entry = tool;
      catalogued = passes.found;
      has_policy = has;
      same_server = refl;
      same_tool = refl;
      fits = passes.fits;
    }

    Ends-IsSound :
        (p : Planning) → IsSound p → Ends dumps text jsonschema remaining_calls catalog IsSound p
    unfolding length
    Ends-IsSound p (auto, asked, bounded) = record {
      rejects = λ tool reason. (auto, asked, bounded);
      skips = λ tool reason f. (auto, asked, bounded);
      accepts = λ tool name arguments passes has. (
        All-append (IsCallable "auto") p.accepted _ auto (callable passes has, tt),
        asked,
        ground (
          arith,
          passes.room,
          length-append p.accepted (normalized_call tool name arguments ∷ []),
        ),
      );
      requests = λ tool name arguments passes has. (
        auto,
        All-append (IsCallable "approval_required") p.approval_requests _ asked
            (callable passes has, tt),
        ground (
          arith,
          passes.room,
          length-append p.approval_requests (normalized_call tool name arguments ∷ []),
        ),
      );
    }

    -- The plan is authorised by the catalogue and within the budget, whatever the model proposes:
    -- each call that may run is to a tool of the catalogue with the policy `auto`, on that tool's
    -- server, with arguments that its schema accepts, each request for an approval is the same with
    -- the policy `approval_required`, and both together are at most the remaining calls.
    pub plan_authorized :
        (proposed : List Fields) (observations : List Json) (validated : Plan)
        → validate_plan dumps text jsonschema proposed catalog remaining_calls observations
          ≡ validated
        → All (IsCallable "auto") validated.calls
          × All (IsCallable "approval_required") validated.approval_requests
          × (length validated.calls + length validated.approval_requests ≤ remaining_calls)
    unfolding validate_plan length
    plan_authorized proposed observations validated is = rw (sym is) (
        check_all-Ends dumps text jsonschema remaining_calls catalog IsSound Ends-IsSound
          (take 20 proposed) (start dumps text jsonschema observations) (tt, tt, omega arith))

    abbrev outputs : Planning → ℕ
    outputs p = length p.accepted + length p.approval_requests + length p.rejected

    -- Every proposed call of the first twenty ends in exactly one of the three lists.
    check_all-outputs :
        (proposed : List Fields) (p : Planning)
        → outputs (check_all dumps text jsonschema remaining_calls catalog proposed p)
          ≡ length proposed + outputs p
    unfolding check_all length
    check_all-outputs [] p = ground arith
    check_all-outputs (x ∷ xs) p =
        let step =
          check_proposed-Ends dumps text jsonschema remaining_calls catalog
            {P = λ q. outputs q ≡ suc (outputs p)} p x
            (record {
              rejects = λ tool reason.
                  ground (
                    arith,
                    length-append p.rejected (record { tool = tool; reason = reason } ∷ []),
                  );
              skips = λ tool reason f.
                  ground (
                    arith,
                    length-append p.rejected (record { tool = tool; reason = reason } ∷ []),
                  );
              accepts = λ tool name arguments passes has.
                  ground
                    (arith, length-append p.accepted (normalized_call tool name arguments ∷ []));
              requests = λ tool name arguments passes has. ground (
                arith,
                length-append p.approval_requests (normalized_call tool name arguments ∷ []),
              );
            }) in
        ground (
          arith,
          step,
          check_all-outputs xs (check_proposed dumps text jsonschema remaining_calls catalog x p),
        )

    -- Every one of the first twenty proposed calls ends in exactly one of the lists of the plan: they
    -- have as many entries as there were calls.
    pub plan_partitions :
        (proposed : List Fields) (observations : List Json) (validated : Plan)
        → validate_plan dumps text jsonschema proposed catalog remaining_calls observations
          ≡ validated
        → length validated.calls + length validated.approval_requests + length validated.rejected
          ≡ min 20 (length proposed)
    unfolding validate_plan length
    plan_partitions proposed observations validated is = rw (sym is) (
        ground (
          arith,
          check_all-outputs (take 20 proposed) (start dumps text jsonschema observations),
          length-take 20 proposed,
        ))

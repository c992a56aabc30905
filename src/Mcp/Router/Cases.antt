-- ===== src/Mcp/Router/Cases.antt =====
-- What one proposed call does to the lists of a plan: the branches of the loop of `validate_plan`.
use text.Mathlib.Text.{◌==◌ as str_eq}
use text.Mathlib.TextEquality.{eq_iff}
use code_mate.Prelude.{
  refl, Option, ℕ, ◌+◌, ◌<◌, ◌≡◌, String, false, none, some, List, [], ◌∷◌, ◌++◌, inl, inr, leb,
  Bool-cases, Option-cases, arith,
}
use code_mate.Lists.{length, member}
use code_mate.Json.{Json, Fields, str, obj, get, mapping_or_none}
use code_mate.Dict.{lookup}
use code_mate.Mcp.Router.Arguments.{
  SchemaCheck, nonempty, validate_tool_arguments, call_fingerprint,
}
use code_mate.Mcp.Router.Plan.{
  CatalogTool, Planning, Call, Reason, invalid_plan_shape, tool_not_in_catalog, deny,
  duplicate_call, schema_validation_failed, call_budget_exhausted, invalid_policy, by_name, reject,
  normalized_call, place, check_call, check_tool, check_named, check_shape, check_proposed,
  check_all, text_or_none,
}

-- A tool of the catalogue under the name of a call.
abbrev pub IsCatalogued : List CatalogTool → String → CatalogTool → Type 0
IsCatalogued catalog qualified_name tool = lookup qualified_name (by_name catalog) ≡ some tool

-- The lists after a call that has been placed.
abbrev pub accept : String → Call → Planning → Planning
accept fingerprint call p = record p {
  seen = fingerprint ∷ p.seen;
  accepted = p.accepted ++ (call ∷ []);
}

abbrev pub request : String → Call → Planning → Planning
request fingerprint call p = record p {
  seen = fingerprint ∷ p.seen;
  approval_requests = p.approval_requests ++ (call ∷ []);
}

abbrev pub record_seen : String → Planning → Planning
record_seen fingerprint p = record p { seen = fingerprint ∷ p.seen }

module _ (dumps : Json → String) (text : Json → String) (jsonschema : Json → Fields → SchemaCheck)
    (remaining_calls : ℕ) (catalog : List CatalogTool) where
  -- When a call passes every test but the one of its policy.
  pub record Passes (tool : CatalogTool) (qualified_name : String) (arguments : Fields)
      (p : Planning) : Type 0 where
    pub found : IsCatalogued catalog qualified_name tool
    pub unseen : member (call_fingerprint dumps qualified_name (obj arguments)) p.seen ≡ false
    pub fits : nonempty (validate_tool_arguments jsonschema tool.input_schema arguments) ≡ none
    pub room : length p.accepted + length p.approval_requests < remaining_calls

  -- The four ends of the loop's body.
  pub record Ends (P : Planning → Type 0) (p : Planning) : Type 0 where
    pub rejects : (tool : Json) (reason : Reason) → P (reject tool reason p)
    pub skips :
        (tool : Json) (reason : Reason) (fingerprint : String)
        → P (reject tool reason (record_seen fingerprint p))
    pub accepts :
        (tool : CatalogTool) (name : String) (arguments : Fields)
        → Passes tool name arguments p
        → tool.policy ≡ "auto"
        → P (
            accept
              (call_fingerprint dumps name (obj arguments))
              (normalized_call tool name arguments)
              p)
    pub requests :
        (tool : CatalogTool) (name : String) (arguments : Fields)
        → Passes tool name arguments p
        → tool.policy ≡ "approval_required"
        → P (
            request
              (call_fingerprint dumps name (obj arguments))
              (normalized_call tool name arguments)
              p)

  place-Ends :
      {P : Planning → Type 0} {p : Planning} (ends : Ends P p) (tool : CatalogTool) (name : String)
      (arguments : Fields)
      → Passes tool name arguments p
      → P (place tool name arguments (record_seen (call_fingerprint dumps name (obj arguments)) p))
  unfolding place
  place-Ends {P} {p} ends tool name arguments passes =
      elim (Bool-cases (str_eq tool.policy "approval_required")) [
        | inl held ↦ rw held (ends.requests tool name arguments passes ((eq_iff _ _).0 held))
        | inr other ↦ elim (Bool-cases (str_eq tool.policy "auto")) [
          | inl held ↦
              rw (other, held) (ends.accepts tool name arguments passes ((eq_iff _ _).0 held))
          | inr not_auto ↦ rw (other, not_auto) (ends.skips (str name) invalid_policy _)
        ]
      ]

  check_call-Ends :
      {P : Planning → Type 0} {p : Planning} (ends : Ends P p) (tool : CatalogTool) (name : String)
      (arguments : Fields)
      → IsCatalogued catalog name tool
      → P (check_call dumps text jsonschema remaining_calls tool name arguments p)
  unfolding check_call
  check_call-Ends {P} {p} ends tool name arguments found =
      let fingerprint = call_fingerprint dumps name (obj arguments) in
      elim (Bool-cases (member fingerprint p.seen)) [
        | inl seen ↦ rw seen (ends.rejects (str name) duplicate_call)
        | inr unseen ↦
            elim (Option-cases
              (nonempty (validate_tool_arguments jsonschema tool.input_schema arguments))) [
                | inr (detail, error) ↦
                    rw (unseen, error) (ends.rejects (str name) (schema_validation_failed detail))
                | inl fits ↦
                    elim (Bool-cases
                      (leb remaining_calls (length p.accepted + length p.approval_requests))) [
                        | inl full ↦
                            rw (unseen, fits, full) (ends.rejects (str name) call_budget_exhausted)
                        | inr room ↦
                            rw (unseen, fits, room)
                              (place-Ends ends tool name arguments (record {
                                found = found;
                                unseen = unseen;
                                fits = fits;
                                room = ground arith;
                              }))
                      ]
              ]
      ]

  check_tool-Ends :
      {P : Planning → Type 0} {p : Planning} (ends : Ends P p) (found : Option CatalogTool)
      (name : String) (arguments : Fields)
      → lookup name (by_name catalog) ≡ found
      → P (check_tool dumps text jsonschema remaining_calls found name arguments p)
  unfolding check_tool
  check_tool-Ends ends none name arguments found = ends.rejects (str name) tool_not_in_catalog
  check_tool-Ends ends (some tool) name arguments found =
      elim (Bool-cases (str_eq tool.policy "deny")) [
        | inl denied ↦ rw denied (ends.rejects (str name) deny)
        | inr not_denied ↦ rw not_denied (check_call-Ends ends tool name arguments found)
      ]

  check_shape-Ends :
      {P : Planning → Type 0} {p : Planning} (ends : Ends P p) (tool : Json) (name : Option String)
      (arguments : Option Fields)
      → P (check_shape dumps text jsonschema remaining_calls catalog tool name arguments p)
  unfolding check_shape check_named
  check_shape-Ends ends tool none arguments = ends.rejects _ invalid_plan_shape
  check_shape-Ends ends tool (some name) none = ends.rejects _ invalid_plan_shape
  check_shape-Ends ends tool (some name) (some arguments) =
      check_tool-Ends ends (lookup name (by_name catalog)) name arguments refl

  -- A property of the lists after the loop's body, from each of its ends.
  pub check_proposed-Ends :
      {P : Planning → Type 0} (p : Planning) (proposed : Fields)
      → Ends P p
      → P (check_proposed dumps text jsonschema remaining_calls catalog proposed p)
  unfolding check_proposed
  check_proposed-Ends p proposed ends =
      check_shape-Ends ends (get "tool" proposed) (text_or_none (get "tool" proposed))
        (mapping_or_none (get "arguments" proposed))

  -- A property that every end of the body keeps holds after the loop.
  pub check_all-Ends :
      (P : Planning → Type 0) (step : (p : Planning) → P p → Ends P p) (proposed : List Fields)
      (p : Planning)
      → P p
      → P (check_all dumps text jsonschema remaining_calls catalog proposed p)
  unfolding check_all
  check_all-Ends P step [] p h = h
  check_all-Ends P step (x ∷ xs) p h =
      check_all-Ends P step xs _ (check_proposed-Ends p x (step p h))

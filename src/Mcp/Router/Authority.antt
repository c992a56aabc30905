-- ===== src/Mcp/Router/Authority.antt =====
-- From the configuration to the calls: what is planned on the catalogue that was discovered.
use text.Mathlib.Text.{◌==◌ as str_eq}
use code_mate.Prelude.{
  subst, ℕ, ◌≡◌, sym, String, true, some, List, [], ◌∷◌, ◌≤◌, arith, inl, inr, Bool-cases,
}
use code_mate.Lists.{All, All-map}
use code_mate.Json.{Json, Fields}
use code_mate.Dict.{Dict, lookup, insert, lookup-insert}
use code_mate.Mcp.Router.Arguments.{SchemaCheck}
use code_mate.Mcp.Router.Plan.{CatalogTool, Call, Plan, by_name, add_tools, validate_plan}
use code_mate.Mcp.Router.Soundness.{IsCallable, plan_authorized}
use code_mate.Mcp.Router.Catalog.{Server, Listing, discover_catalog}
use code_mate.Mcp.Router.Discovery.{any_offers, IsOffered, discover_faithful}

-- A tool that is found by its name is one of the catalogue.
add_tools-All :
    (P : CatalogTool → Type 0) (tools : List CatalogTool) (d : Dict CatalogTool)
    → ((k : String) (t : CatalogTool) → lookup k d ≡ some t → P t)
    → All P tools
    → (k : String) (t : CatalogTool) → lookup k (add_tools tools d) ≡ some t
    → P t
add_tools-All P [] d within ps k t found = within k t found
add_tools-All P (tool ∷ tools) d within (p, ps) k t found =
    add_tools-All P tools (insert tool.qualified_name tool d)
      (λ j u got. elim (Bool-cases (str_eq tool.qualified_name j)) [
        | inl same ↦
            subst P (ground (arith, got, same, lookup-insert tool.qualified_name j tool d)) p
        | inr other ↦
            within j u (ground (arith, got, other, lookup-insert tool.qualified_name j tool d))
      ])
      ps k t found

by_name-All :
    (P : CatalogTool → Type 0) (catalog : List CatalogTool) (k : String) (t : CatalogTool)
    → All P catalog
    → lookup k (by_name catalog) ≡ some t
    → P t
unfolding by_name lookup
by_name-All P catalog k t ps found = add_tools-All P catalog [] (λ j u absent. cc) ps k t found

module _ (dumps : Json → String) (text : Json → String) (jsonschema : Json → Fields → SchemaCheck)
    (limit : ℕ) (servers : List Server) (list_tools : Server → Listing) where
  callable-offered :
      {catalog : List CatalogTool} {remaining_calls : ℕ} {policy : String} {c : Call}
      → IsCallable dumps text jsonschema catalog remaining_calls policy c
      → All (IsOffered servers) catalog
      → any_offers servers c.server c.tool policy ≡ true
  callable-offered {catalog} callable offered =
      let t =
        by_name-All (IsOffered servers) catalog _ callable.entry offered callable.catalogued in
      rw (callable.same_server, callable.same_tool, sym callable.has_policy) t

  -- The model has no say in what may run: whatever it proposes and whatever the servers list, each
  -- call that a plan on the discovered catalogue lets run goes to an enabled server that allows the
  -- tool and whose policy for it is `auto`, and each request for an approval to one whose policy is
  -- `approval_required`. The catalogue's limit is positive.
  pub planned_as_configured :
      (proposed : List Fields) (remaining_calls : ℕ) (observations : List Json) (validated : Plan)
      → 1 ≤ limit
      → validate_plan dumps text jsonschema proposed
          (discover_catalog dumps text limit list_tools servers).tools
          remaining_calls
          observations
        ≡ validated
      → All (λ c. any_offers servers c.server c.tool "auto" ≡ true) validated.calls
        × All
            (λ c. any_offers servers c.server c.tool "approval_required" ≡ true)
            validated.approval_requests
  planned_as_configured proposed remaining_calls observations validated positive is =
      let catalog = (discover_catalog dumps text limit list_tools servers).tools in
      let offered = (discover_faithful dumps text limit servers list_tools positive).1 in
      let (auto, asked, bounded) =
        plan_authorized dumps text jsonschema catalog remaining_calls proposed observations
          validated is in
      (
        All-map (IsCallable dumps text jsonschema catalog remaining_calls "auto") _ validated.calls
            (λ c callable. callable-offered callable offered) auto,
        All-map (IsCallable dumps text jsonschema catalog remaining_calls "approval_required") _
            validated.approval_requests (λ c callable. callable-offered callable offered) asked,
      )

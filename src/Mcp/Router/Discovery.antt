-- ===== src/Mcp/Router/Discovery.antt =====
-- The catalogue against the configuration of the servers.
use text.Mathlib.Text.{◌==◌ as str_eq}
use text.Mathlib.TextPositions.{eq_refl}
use code_mate.Prelude.{
  if-both, refl, ℕ, ◌≤◌, ◌<◌, ◌≡◌, String, Bool, true, false, ◌&&◌, ◌||◌, List, [], ◌∷◌, ltb, arith,
  inl, inr, Bool-cases,
}
use code_mate.Text.{length as text_length}
use code_mate.Lists.{length, member, All, All-append, length-append}
use code_mate.Json.{Json, Fields, get}
use code_mate.Dict.{lookup}
use code_mate.Mcp.Router.Plan.{CatalogTool}
use code_mate.Mcp.Router.Catalog.{
  raised, listed, add_listing, discover_catalog, add_servers, Listing, add_tools, Server, Catalog,
  is_usable, or_deny, schema_or_object, catalog_entry, add_allowed,
}

-- The server may be used, allows the tool, and has the policy for it.
abbrev pub offers : Server → String → String → String → Bool
offers server name tool policy =
    is_usable server
    && str_eq server.name name
    && member tool server.allowed_tools
    && str_eq (or_deny (lookup tool server.tool_policies)) policy

-- One of the servers does.
unfoldable pub any_offers : List Server → String → String → String → Bool
any_offers [] name tool policy = false
any_offers (server ∷ servers) name tool policy =
    offers server name tool policy || any_offers servers name tool policy

abbrev pub IsOffered : List Server → CatalogTool → Type 0
IsOffered servers t = any_offers servers t.server t.name t.policy ≡ true

module _ (dumps : Json → String) (text : Json → String) (limit : ℕ) (all : List Server) where
  record IsFaithful (c : Catalog) : Type 0 where
    pub bounded : length c.tools ≤ limit
    pub room : c.truncated ≡ false → length c.tools < limit
    pub offered : All (IsOffered all) c.tools

  add_allowed-IsFaithful :
      (server : Server) (tool : Fields) (c : Catalog)
      → any_offers all server.name
          (text (get "name" tool))
          (or_deny (lookup (text (get "name" tool)) server.tool_policies))
        ≡ true
      → c.truncated ≡ false
      → IsFaithful c
      → IsFaithful (add_allowed dumps text limit server tool c)
  unfolding add_allowed length
  add_allowed-IsFaithful server tool c offer going f =
      let schema = schema_or_object (get "input_schema" tool) in
      let entry = catalog_entry dumps text server tool schema in
      elim (Bool-cases (ltb 20000 (text_length (dumps schema)))) [
        | inl large ↦
            rw (large, add_allowed)
              (record { bounded = f.bounded; room = f.room; offered = f.offered })
        | inr small ↦
            rw (small, add_allowed)
              (record {
                bounded = ground (arith, f.room going, length-append c.tools (entry ∷ []));
                room = λ still. ground (arith, still);
                offered = All-append (IsOffered all) c.tools (entry ∷ []) f.offered (offer, tt);
              })
      ]

  -- What a server of the list offers is offered by the list.
  abbrev IsAmong : Server → Type 0
  IsAmong server =
      (tool policy : String)
      → offers server server.name tool policy ≡ true
      → any_offers all server.name tool policy ≡ true

  add_tools-IsFaithful :
      (server : Server) (tools : List Fields) (c : Catalog)
      → IsAmong server
      → is_usable server ≡ true
      → c.truncated ≡ false
      → IsFaithful c
      → IsFaithful (add_tools dumps text limit server tools c)
  unfolding add_tools
  add_tools-IsFaithful server [] c among usable going f = f
  add_tools-IsFaithful server (tool ∷ tools) c among usable going f =
      let name = text (get "name" tool) in
      let policy = or_deny (lookup name server.tool_policies) in
      elim (Bool-cases (member name server.allowed_tools)) [
        | inr hidden ↦ rw hidden (
            if-both IsFaithful c.truncated f
              (add_tools-IsFaithful server tools c among usable going f))
        | inl allowed ↦
            let offer =
              among name policy
                (ground (arith, usable, allowed, eq_refl server.name, eq_refl policy)) in
            let g = add_allowed-IsFaithful server tool c offer going f in
            elim (Bool-cases (add_allowed dumps text limit server tool c).truncated) [
              | inl over ↦ rw (allowed, over) g
              | inr still ↦
                  rw (allowed, still)
                    (add_tools-IsFaithful server tools (add_allowed dumps text limit server tool c)
                      among usable still g)
            ]
      ]

  add_listing-IsFaithful :
      (server : Server) (listing : Listing) (c : Catalog)
      → IsAmong server
      → is_usable server ≡ true
      → c.truncated ≡ false
      → IsFaithful c
      → IsFaithful (add_listing dumps text limit server listing c)
  add_listing-IsFaithful server (listed tools) c among usable going f =
      add_tools-IsFaithful server tools c among usable going f
  add_listing-IsFaithful server (raised error) c among usable going f = record {
    bounded = f.bounded;
    room = f.room;
    offered = f.offered;
  }

  add_servers-IsFaithful :
      (list_tools : Server → Listing) (servers : List Server) (c : Catalog)
      → ((name tool policy : String)
          → any_offers servers name tool policy ≡ true
          → any_offers all name tool policy ≡ true)
      → c.truncated ≡ false
      → IsFaithful c
      → IsFaithful (add_servers dumps text limit list_tools servers c)
  unfolding add_servers any_offers
  add_servers-IsFaithful list_tools [] c within going f = f
  add_servers-IsFaithful list_tools (server ∷ servers) c within going f =
      let later =
        λ (name : String) (tool : String) (policy : String)
            (offer : any_offers servers name tool policy ≡ true).
          within name tool policy (ground (arith, offer)) in
      elim (Bool-cases (is_usable server)) [
        | inr skipped ↦ rw skipped (
            if-both IsFaithful c.truncated f
              (add_servers-IsFaithful list_tools servers c later going f))
        | inl usable ↦
            let next = add_listing dumps text limit server (list_tools server) c in
            let g =
              add_listing-IsFaithful server (list_tools server) c
                (λ tool policy offer. within server.name tool policy (ground (arith, offer))) usable
                going f in
            elim (Bool-cases next.truncated) [
              | inl over ↦ rw (usable, over) g
              | inr still ↦
                  rw (usable, still) (add_servers-IsFaithful list_tools servers next later still g)
            ]
      ]

  -- The catalogue has at most the limit of tools, and each is one that a usable server allows, with
  -- the policy that this server has for it, which is `deny` for a tool without one. The limit is
  -- positive, as `tool_limit` makes it.
  pub discover_faithful :
      (list_tools : Server → Listing)
      → 1 ≤ limit
      → (length (discover_catalog dumps text limit list_tools all).tools ≤ limit)
        × All (IsOffered all) (discover_catalog dumps text limit list_tools all).tools
  unfolding discover_catalog length
  discover_faithful list_tools positive =
      let f =
        add_servers-IsFaithful list_tools all
          (record { tools = []; errors = []; truncated = false }) (λ name tool policy offer. offer)
          refl (record { bounded = omega arith; room = λ still. positive; offered = tt }) in
      (f.bounded, f.offered)

-- ===== src/Mcp/Client/Release.antt =====
-- The quota of a remote call is asked before it, and given back after it whatever happens.
use code_mate.Mcp.Client.{
  tool_not_allowed, call_tool, call_on, call_hooked, Outcome, run, release_outcome, remote_called,
  call_reserved, Remote, reserve_call, Context, find_server, Server, ToolCall, Client,
}
use code_mate.Mcp.Quota.RedisReserve.{Settings}
use text.Mathlib.TextPositions.{eq_refl}
use code_mate.Mcp.Quota.Sums.{find-replace}
use code_mate.Mcp.Quota.Accepted.{find_key-All}
use code_mate.Mcp.Quota.Booking.{
  unavailable_error, conflict, exceeded, Result, World, reserved, Call, leased_event, find_key,
}
use code_mate.Mcp.Quota.Cases.{reserve-Ends}
use code_mate.Mcp.Quota.Reserve.{reserve}
use code_mate.Lists.{member, All}
use text.Mathlib.Text.{◌==◌ as str_eq}
use code_mate.Mcp.Quota.Usage.{Database, find_event, Event}
use code_mate.Mcp.Quota.Release.{release, same_token, release_in, release_event}
use code_mate.Mcp.Quota.Policy.{Membership, Policy}
use code_mate.Mcp.Quota.RedisReserve.{Outside}
use code_mate.Mcp.Quota.Booking.{reserved, Reservation, Call, World, new_event, lease_event}
use code_mate.Prelude.{
  if◌then◌else◌, ◌∙◌, refl, subst, sym, ap, none, inr, inl, true, Bool-cases, arith, some, false,
  Option, String, List, ℕ, Bool, ◌≡◌,
}

abbrev reservation_or : Reservation → Result → Reservation
reservation_or r (reserved q) = q
reservation_or r x = r

reserved-injective : (a b : Reservation) → reserved a ≡ reserved b → a ≡ b
reserved-injective a b h = ap (reservation_or a) h

leased-named :
    (c : Settings) (call : Call) (cost : ℕ) (existing : Option Event) (es : List Event)
    → str_eq call.fresh_id "" ≡ false
    → All (λ e. str_eq e.id "" ≡ false) es
    → find_key call.idempotency_key es ≡ existing
    → str_eq (leased_event c call cost existing).id "" ≡ false
unfolding lease_event new_event
leased-named c call cost none es fresh named found = fresh
leased-named c call cost (some e) es fresh named found =
    find_key-All (λ e. str_eq e.id "" ≡ false) call.idempotency_key es e named found

-- What `reserve` grants is the lease of an event with its own token.
reserve-named :
    (c : Settings) (o : Outside) (policies : List Policy) (members : List Membership) (call : Call)
    (w : World) (r : Reservation)
    → str_eq call.fresh_id "" ≡ false
    → All (λ e. str_eq e.id "" ≡ false) w.database.events
    → (reserve c o policies members call w).0 ≡ reserved r
    → r.enabled ≡ true
    → (r.lease_token ≡ some call.fresh_token)
      × (id : String) × (r.event_id ≡ some id)
      × (str_eq id "" ≡ false)
unfolding lease_event new_event
reserve-named c o policies members call w r fresh named =
    reserve-Ends c o call w
      (λ x db.
        x ≡ reserved r
        → r.enabled ≡ true
        → (r.lease_token ≡ some call.fresh_token)
          × (id : String) × (r.event_id ≡ some id)
          × (str_eq id "" ≡ false))
      policies members
      (record {
        disabled = λ is_reserved is_enabled. ground arith;
        conflicts = λ text. λ is_reserved is_enabled. ground arith;
        fails = λ text. λ is_reserved is_enabled. ground arith;
        rejected = λ x y. λ is_reserved is_enabled. ground arith;
        booked = λ cost existing found idle fits. λ is_reserved is_enabled.
            let same = reserved-injective _ r is_reserved in
            (
              ap (λ q. q.lease_token) (sym same),
              (leased_event c call cost existing).id,
              ap (λ q. q.event_id) (sym same),
              leased-named c call cost existing w.database.events fresh named found,
            );
      })

module _ (c : Settings) (answers : Bool) (now : ℕ) (outcome : String) (w : World) where
  release_in-frees :
      (id token : String) (found : Option Event) (e : Event)
      → find_event id w.database.events ≡ found
      → find_event id (release_in now outcome (some token) found w.database).events ≡ some e
      → same_token e.lease_token (some token) ≡ false
  unfolding release_event
  release_in-frees id token none e h after = ground (arith, h, after)
  release_in-frees id token (some f) e h after =
      elim (Bool-cases (same_token f.lease_token (some token))) [
        | inl held ↦ ground (
          arith,
          held,
          h,
          after,
          find-replace (release_event now outcome f) id w.database.events,
          eq_refl f.id,
        )
        | inr other ↦ ground (arith, other, h, after)
      ]

  -- A release leaves the event of the reservation without the lease of its token.
  release-frees :
      (r : Reservation) (id token : String) (e : Event)
      → r.enabled ≡ true
      → r.event_id ≡ some id
      → str_eq id "" ≡ false
      → r.lease_token ≡ some token
      → find_event id (release c answers now outcome r w).database.events ≡ some e
      → same_token e.lease_token (some token) ≡ false
  unfolding release
  release-frees r id token e enabled has named leased after =
      let gone : (release c answers now outcome r w).database
          ≡ release_in now outcome (some token) (find_event id w.database.events) w.database =
        rw (has, enabled, named, leased) refl in
      release_in-frees id token (find_event id w.database.events) e refl
        (subst (λ (db : Database). find_event id db.events ≡ some e) gone after)

-- The reservation that a call had, and that no event holds its lease any more.
abbrev IsGivenBack : Client → ToolCall → World → World → Context → Type 0
IsGivenBack c t w after context =
    (r : Reservation) × ((reserve c.settings c.outside c.policies c.members
        (reserve_call c context t) w).0
      ≡ reserved r)
    × (r.enabled ≡ true
        → (id : String) (e : Event) → r.event_id ≡ some id
        → find_event id after.database.events ≡ some e
        → same_token e.lease_token (some t.fresh_token) ≡ false)

-- What a remote call has had before and leaves behind: a server that allows it and, where there is a
-- quota, a reservation that has been given back.
abbrev pub IsSettled : Client → ToolCall → World → World → Type 0
IsSettled c t w after =
    ((s : Server) × (find_server t.server_name c.servers ≡ some s)
      × (member t.tool_name s.allowed_tools ≡ true))
    × ((context : Context) → c.hooks ≡ some context → IsGivenBack c t w after context)

abbrev id_or : Option String → String
id_or none = ""
id_or (some id) = id

abbrev if_allowed : Bool → Outcome × World → World → Outcome × World
if_allowed allowed x w = if allowed then x else (tool_not_allowed, w)

abbrev context_or : Context → Option Context → Context
context_or d none = d
context_or d (some k) = k

module _ (c : Client) (t : ToolCall) (w : World) (fresh : str_eq t.fresh_id "" ≡ false)
    (named : All (λ e. str_eq e.id "" ≡ false) w.database.events) where
  -- What follows from the result of the reservation.
  call_reserved-frees :
      (context : Context) (x : Result) (w' : World) (y : Remote)
      → (call_reserved c t (x, w')).0 ≡ remote_called y
      → (r : Reservation) × (x ≡ reserved r)
        × (r.lease_token ≡ some t.fresh_token
            → r.enabled ≡ true
            → (id : String) (e : Event) → r.event_id ≡ some id
            → str_eq id "" ≡ false
            → find_event id (call_reserved c t (x, w')).1.database.events ≡ some e
            → same_token e.lease_token (some t.fresh_token) ≡ false)
  call_reserved-frees context (reserved r) w' y called = (
    r,
    refl,
    λ leased enabled id e has known after.
        release-frees c.settings t.release_redis_answers t.released (release_outcome t.remote)
          (run c.settings c.outside t.others w') r id t.fresh_token e enabled has known leased
          after,
  )
  call_reserved-frees context (exceeded z) w' y called = ground arith
  call_reserved-frees context (conflict text) w' y called = ground arith
  call_reserved-frees context (unavailable_error text) w' y called = ground arith

  reserved-IsGivenBack :
      (context : Context) (y : Remote)
      → let result =
          reserve c.settings c.outside c.policies c.members (reserve_call c context t) w in
        (call_reserved c t result).0 ≡ remote_called y
        → IsGivenBack c t w (call_reserved c t result).1 context
  unfolding reserve_call
  reserved-IsGivenBack context y called =
      let result = reserve c.settings c.outside c.policies c.members (reserve_call c context t) w in
      let (r, is_reserved, frees) = call_reserved-frees context result.0 result.1 y called in
      (
        r,
        is_reserved,
        λ enabled id e has after.
            let (leased, own, has_own, known) =
              reserve-named c.settings c.outside c.policies c.members (reserve_call c context t) w r
                fresh named is_reserved enabled in
            frees leased enabled id e has
              (ap (λ k. str_eq (id_or k) "") (sym has ∙ has_own) ∙ known) after,
      )

  hooked-IsGivenBack :
      (hooks : Option Context) (y : Remote) (context : Context)
      → hooks ≡ some context
      → (call_hooked c t hooks w).0 ≡ remote_called y
      → IsGivenBack c t w (call_hooked c t hooks w).1 context
  hooked-IsGivenBack none y context same called = ground arith
  hooked-IsGivenBack (some k) y context same called =
      subst (IsGivenBack c t w (call_hooked c t (some k) w).1) (ap (context_or k) same)
        (reserved-IsGivenBack k y called)

  allowed-IsSettled :
      (s : Server) (y : Remote) (allowed : Bool)
      → find_server t.server_name c.servers ≡ some s
      → member t.tool_name s.allowed_tools ≡ allowed
      → (if_allowed allowed (call_hooked c t c.hooks w) w).0 ≡ remote_called y
      → IsSettled c t w (if_allowed allowed (call_hooked c t c.hooks w) w).1
  allowed-IsSettled s y true h allowed called =
      ((s, h, allowed), λ context has. hooked-IsGivenBack c.hooks y context has called)
  allowed-IsSettled s y false h allowed called = ground arith

  on-IsSettled :
      (found : Option Server) (y : Remote)
      → find_server t.server_name c.servers ≡ found
      → (call_on c t w found).0 ≡ remote_called y
      → IsSettled c t w (call_on c t w found).1
  on-IsSettled none y h called = ground arith
  on-IsSettled (some s) y h called =
      allowed-IsSettled s y (member t.tool_name s.allowed_tools) h refl called

  -- A tool is only called on an enabled server that allows it and, where there is a quota, after a
  -- reservation; and whether the call answers, reports an error or raises an exception, and whatever
  -- other callers of the quotas do meanwhile, afterwards the event of the reservation is no longer
  -- leased with its token; the fresh id and the ids of the events are not empty.
  pub call_tool-IsSettled :
      (y : Remote) → (call_tool c t w).0 ≡ remote_called y → IsSettled c t w (call_tool c t w).1
  unfolding call_tool
  call_tool-IsSettled y called = on-IsSettled (find_server t.server_name c.servers) y refl called

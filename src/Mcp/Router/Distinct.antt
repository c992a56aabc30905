-- ===== src/Mcp/Router/Distinct.antt =====
-- No call twice: what `validate_plan` keeps of calls with the same fingerprint.
use text.Mathlib.Text.{◌==◌ as str_eq}
use text.Mathlib.TextEquality.{eq_iff}
use code_mate.Prelude.{
  refl, ℕ, ◌+◌, ◌≤◌, ◌≡◌, sym, String, true, false, List, [], ◌∷◌, ◌++◌, arith, if◌then◌else◌,
}
use code_mate.Lists.{take, member}
use code_mate.Json.{Json, Fields, obj}
use code_mate.Mcp.Router.Arguments.{SchemaCheck, call_fingerprint}
use code_mate.Mcp.Router.Plan.{
  CatalogTool, Planning, Plan, Call, fingerprints, normalized_call, start, validate_plan,
}
use code_mate.Mcp.Router.Cases.{Ends, check_all-Ends}

module _ (dumps : Json → String) (text : Json → String)
    (jsonschema : Json → Fields → SchemaCheck) where
  abbrev pub fingerprint_of : Call → String
  fingerprint_of c = call_fingerprint dumps c.qualified_name (obj c.arguments)

  -- How many of the calls have the fingerprint.
  unfoldable pub count : String → List Call → ℕ
  count f [] = 0
  count f (c ∷ cs) = (if str_eq (fingerprint_of c) f then 1 else 0) + count f cs

  count-append : (f : String) (cs ds : List Call) → count f (cs ++ ds) ≡ count f cs + count f ds
  unfolding count
  count-append f [] ds = ground arith
  count-append f (c ∷ cs) ds = ground (arith, count-append f cs ds)

  module _ (catalog : List CatalogTool) (remaining_calls : ℕ) where
    abbrev both : String → Planning → ℕ
    both f p = count f p.accepted + count f p.approval_requests

    -- Of a fingerprint at most one call, no call before it is seen, and none if it is old.
    record IsDistinct (old : List String) (p : Planning) : Type 0 where
      pub once : (f : String) → both f p ≤ 1
      pub new : (f : String) → member f p.seen ≡ false → both f p ≡ 0
      pub known : (f : String) → member f old ≡ true → member f p.seen ≡ true
      pub none_old : (f : String) → member f old ≡ true → both f p ≡ 0

    grown :
        {old : List String} {p q : Planning} (g : String)
        → IsDistinct old p
        → member g p.seen ≡ false
        → q.seen ≡ (g ∷ p.seen)
        → ((f : String) → both f q ≡ both f p + (if str_eq g f then 1 else 0))
        → IsDistinct old q
    unfolding member
    grown {old} {p} {q} g d unseen seen more = record {
      once = λ f. ground (arith, more f, d.once f, d.new f, eq_iff g f, unseen);
      new = λ f fresh. ground (arith, more f, seen, d.new f);
      known = λ f o. ground (arith, seen, d.known f o);
      none_old = λ f o. ground (arith, more f, d.none_old f o, d.known f o, eq_iff g f, unseen);
    }

    Ends-IsDistinct :
        (old : List String) (p : Planning)
        → IsDistinct old p
        → Ends dumps text jsonschema remaining_calls catalog (IsDistinct old) p
    unfolding member count
    Ends-IsDistinct old p d = record {
      rejects = λ tool reason. record {
        once = d.once;
        new = d.new;
        known = d.known;
        none_old = d.none_old;
      };
      skips = λ tool reason g. record {
        once = d.once;
        new = λ f fresh. d.new f (ground arith);
        known = λ f o. ground (arith, d.known f o);
        none_old = d.none_old;
      };
      accepts = λ tool name arguments passes has. grown _ d passes.unseen refl (λ f.
          ground (arith, count-append f p.accepted (normalized_call tool name arguments ∷ [])));
      requests = λ tool name arguments passes has. grown _ d passes.unseen refl (λ f.
          ground
            (arith, count-append f p.approval_requests (normalized_call tool name arguments ∷ [])));
    }

    -- No call is planned twice: of the calls that may run and the requests for approvals together, at
    -- most one has a given name and arguments, as their fingerprint tells them, and none has those of
    -- an observed call.
    pub plan_distinct :
        (proposed : List Fields) (observations : List Json) (validated : Plan) (f : String)
        → validate_plan dumps text jsonschema proposed catalog remaining_calls observations
          ≡ validated
        → count f validated.calls + count f validated.approval_requests
          ≤ (if member f (fingerprints dumps text jsonschema observations) then 0 else 1)
    unfolding validate_plan count
    plan_distinct proposed observations validated f is =
        let old = fingerprints dumps text jsonschema observations in
        let d =
          check_all-Ends dumps text jsonschema remaining_calls catalog (IsDistinct old)
            (Ends-IsDistinct old) (take 20 proposed) (start dumps text jsonschema observations)
            (record {
              once = λ g. omega arith;
              new = λ g fresh. refl;
              known = λ g o. o;
              none_old = λ g o. refl;
            }) in
        rw (sym is) (ground (arith, d.once f, d.none_old f))

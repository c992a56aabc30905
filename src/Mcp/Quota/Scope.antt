-- ===== src/Mcp/Quota/Scope.antt =====
-- An update of a policy leaves its scope as it is.
use text.Mathlib.TextEquality.{eq_iff}
use text.Mathlib.Text.{◌==◌ as str_eq}
use code_mate.Mcp.Quota.Update.{update_found, write_normalized, update_policy, write_policy}
use code_mate.Mcp.Quota.Valid.{normalize-IsNormal, ok-injective, bind-ok, IsValid}
use code_mate.Json.{ℤ}
use code_mate.Mcp.Quota.Methods.{
  replace_policy, conflict_error, is_taken, Result, done, find_policy, Operator,
}
use code_mate.Mcp.Quota.Changes.{policy_payload, update_payload, over, is_changed, changes_scope}
use code_mate.Mcp.Quota.Policy.{Policy}
use code_mate.Mcp.Quota.Payload.{
  get, conflict, normalize_limits, Checked, text_or, or_none, ok, Normalized, Payload,
  normalize_policy_payload,
}
use code_mate.Prelude.{
  true, ==_iff, subst, if◌then◌else◌, Bool, none, refl, Bool-cases, inl, inr, ◌==◌, suc, sym, ◌∙◌,
  ap, List, ℕ, arith, some, false, String, Option, ◌≡◌,
}

-- What the normalized payload says of the scope.
normalize-scope :
    (default_cost : ℤ) (tenant_id : String) (p : Payload) (n : Normalized)
    → normalize_policy_payload default_cost tenant_id p ≡ ok n
    → (n.tenant_id ≡ tenant_id)
      × (n.repo_id ≡ or_none (get p.repo_id))
      × (n.principal_type ≡ text_or (get p.principal_type) "*")
      × (n.principal_id ≡ text_or (get p.principal_id) "*")
      × (n.server_name ≡ text_or (get p.server_name) "*")
      × (n.tool_name ≡ text_or (get p.tool_name) "*")
unfolding normalize_policy_payload
normalize-scope default_cost tenant_id p n h =
    let (checked, is_checked, h1) = bind-ok (normalize_limits default_cost p) _ _ h in
    let same = sym (ok-injective _ _ h1) in
    (
      ap (λ m. m.tenant_id) same,
      ap (λ m. m.repo_id) same,
      ap (λ m. m.principal_type) same,
      ap (λ m. m.principal_id) same,
      ap (λ m. m.server_name) same,
      ap (λ m. m.tool_name) same,
    )

-- A field that may not change keeps its value.
unchanged-repo :
    (field : Option (Option String)) (current : Option String)
    → is_changed field current ≡ false
    → get (over field (some current)) ≡ current
unchanged-repo none current h = refl
unchanged-repo (some none) none h = refl
unchanged-repo (some none) (some t) h = ground arith
unchanged-repo (some (some s)) none h = ground arith
unchanged-repo (some (some s)) (some t) h = ap some ((eq_iff s t).0 (ground arith))

unchanged-text :
    (field : Option (Option String)) (current : String)
    → is_changed field (some current) ≡ false
    → str_eq current "" ≡ false
    → text_or (get (over field (some (some current)))) "*" ≡ current
unchanged-text field current h named =
    ap (λ o. text_or o "*") (unchanged-repo field (some current) h) ∙ rw named refl

-- The two policies have one scope.
abbrev pub HasScopeOf : Policy → Policy → Type 0
HasScopeOf p new =
    (new.id ≡ p.id)
    × (new.tenant_id ≡ p.tenant_id)
    × (new.repo_id ≡ p.repo_id)
    × (new.principal_type ≡ p.principal_type)
    × (new.principal_id ≡ p.principal_id)
    × (new.server_name ≡ p.server_name)
    × (new.tool_name ≡ p.tool_name)

unchanged-fields :
    (payload : Payload) (p : Policy)
    → changes_scope payload p ≡ false
    → (is_changed payload.repo_id p.repo_id ≡ false)
      × (is_changed payload.principal_type (some p.principal_type) ≡ false)
      × (is_changed payload.principal_id (some p.principal_id) ≡ false)
      × (is_changed payload.server_name (some p.server_name) ≡ false)
      × (is_changed payload.tool_name (some p.tool_name) ≡ false)
unfolding changes_scope
unchanged-fields payload p h = ground arith

abbrev policy_or : Policy → Result → Policy
policy_or p (done q) = q
policy_or p r = p

abbrev pick : Bool → Result × List Policy → Result × List Policy → Result × List Policy
pick b x y = if b then x else y

done-injective :
    (a new : Policy) (b : Bool) (text : String) (ps ps' : List Policy)
    → (pick b (conflict_error text, ps) (done a, ps')).0 ≡ done new
    → a ≡ new
done-injective a new true text ps ps' h = ground arith
done-injective a new false text ps ps' h = ap (policy_or a) h

module _ (op : Operator) (payload : Payload) (p new : Policy) (valid : IsValid p) where
  write-scope :
      (ps : List Policy) (checked : Checked Normalized)
      → changes_scope payload p ≡ false
      → normalize_policy_payload op.default_cost p.tenant_id
          (update_payload payload (policy_payload p))
        ≡ checked
      → (write_normalized op p ps checked).0 ≡ done new
      → HasScopeOf p new × IsValid new × (new.version ≡ suc p.version)
  unfolding write_policy update_payload policy_payload
  write-scope ps (conflict text) same normal h = ground arith
  write-scope ps (ok n) same normal h =
      let (repo, kind, principal, server, tool) = unchanged-fields payload p same in
      let (tenant', repo', kind', principal', server', tool') =
        normalize-scope op.default_cost p.tenant_id (update_payload payload (policy_payload p)) n
          normal in
      let is_normal =
        normalize-IsNormal op.default_cost p.tenant_id (update_payload payload (policy_payload p)) n
          normal in
      let written =
        done-injective (write_policy op n p) new (is_taken p.id (write_policy op n p).scope_key ps)
          "A quota policy already exists for this scope" ps
          (replace_policy (write_policy op n p) ps) h in
      subst (λ q. HasScopeOf p q × IsValid q × (q.version ≡ suc p.version)) written
        (
          (
            refl,
            tenant',
            repo' ∙ ap or_none (unchanged-repo payload.repo_id p.repo_id repo) ∙ valid.named.repo,
            kind' ∙ unchanged-text payload.principal_type p.principal_type kind valid.named.kind,
            principal'
                ∙ unchanged-text payload.principal_id p.principal_id principal
                    valid.named.principal,
            server' ∙ unchanged-text payload.server_name p.server_name server valid.named.server,
            tool' ∙ unchanged-text payload.tool_name p.tool_name tool valid.named.tool,
          ),
          record { valid = is_normal.valid; named = is_normal.named },
          ground arith,
        )

  found-scope :
      (expected : ℕ) (ps : List Policy)
      → (update_found op payload expected ps (some p)).0 ≡ done new
      → (p.version ≡ expected) × HasScopeOf p new × IsValid new × (new.version ≡ suc p.version)
  found-scope expected ps h = elim (Bool-cases (p.version == expected)) [
    | inr other ↦ ground (arith, other)
    | inl same ↦ elim (Bool-cases (changes_scope payload p)) [
      | inl changed ↦ ground (arith, same, changed)
      | inr kept ↦
          let (scope, is_valid, version) =
            write-scope ps _ kept refl (ground (arith, same, kept)) in
          ((==_iff p.version expected).0 same, scope, is_valid, version)
    ]
  ]

  -- An update that succeeds found the version that it expected and leaves it one higher; the policy
  -- keeps its id, its tenant and its scope, and is valid again; the row that it found was valid.
  pub update_keeps_scope :
      (id : String) (expected : ℕ) (ps : List Policy)
      → find_policy id ps ≡ some p
      → (update_policy op id payload expected ps).0 ≡ done new
      → (p.version ≡ expected) × HasScopeOf p new × IsValid new × (new.version ≡ suc p.version)
  unfolding update_policy
  update_keeps_scope id expected ps found h =
      found-scope expected ps (ap (λ o. (update_found op payload expected ps o).0) (sym found) ∙ h)

-- ===== src/Mcp/Execution/Keys.antt =====
-- One row for each idempotency key, and one request for each row.
use text.Mathlib.TextEquality.{eq_iff}
use text.Mathlib.TextPositions.{eq_refl}
use code_mate.Mcp.Execution.Methods.{
  claim, complete, mark_unknown, recover_stale, count_hit, set_unknown, recover_expired, acquire,
}
use code_mate.Mcp.Execution.Reconcile.{reconcile}
use code_mate.Prelude.{
  ◌∙◌, false, ℕ, ◌≡◌, refl, String, true, Option, none, some, List, [], ◌∷◌, inl, inr, ap,
  Option-cases, arith, Bool-cases, if◌then◌else◌,
}
use code_mate.Json.{Json}
use code_mate.Mcp.Execution.Row.{Execution, Settings, ok}
use code_mate.Mcp.Execution.Prepare.{
  PrepareRequest, find, same_text, sha256_json, prepare, arguments_of,
}
use code_mate.Mcp.Execution.Steps.{Call, claims, completes, loses, recovers, reconciles, step}
use text.Mathlib.Text.{◌==◌ as str_eq}

-- No two rows of the table share an idempotency key.
abbrev pub HasUniqueKeys : List Execution → Type 0
HasUniqueKeys [] = Unit
HasUniqueKeys (e ∷ db) = (find e.idempotency_key db ≡ none) × HasUniqueKeys db

same_text_refl : (o : Option String) → same_text o o ≡ true
same_text_refl none = refl
same_text_refl (some s) = eq_refl s

same_text-eq : (a b : Option String) → same_text a b ≡ true → a ≡ b
same_text-eq none none h = refl
same_text-eq none (some t) h = cc
same_text-eq (some s) none h = cc
same_text-eq (some s) (some t) h = ap some ((eq_iff s t).0 h)

-- A call on the table: a request is prepared, or a method is called on the row of a key.
pub data TableCall : Type 0 where
  prepares : ℕ → String → PrepareRequest → TableCall
  calls : String → Call → TableCall

-- The fields of a row that say which request it is for.
pub record IsFor (jsonable : Json → Json) (canonical : Json → String) (sha256 : String → String)
    (r : PrepareRequest) (id : String) (e : Execution) : Type 0 where
  pub same_id : e.id ≡ id
  pub same_key : e.idempotency_key ≡ r.idempotency_key
  pub same_run : e.run_id ≡ r.run_id
  pub same_approval : e.approval_id ≡ r.approval_id
  pub same_tool : e.qualified_name ≡ r.call.qualified_name
  pub same_arguments :
      e.arguments_hash
      ≡ sha256_json jsonable canonical sha256 (arguments_of jsonable canonical sha256 r)

module _ (jsonable : Json → Json) (canonical : Json → String) (sha256 : String → String)
    (print : Json → String) (c : Settings) where
  unfoldable pub call_row : String → Call → List Execution → List Execution
  call_row key k [] = []
  call_row key k (e ∷ db) =
      let rest = call_row key k db in
      if str_eq e.idempotency_key key then step print c k e ∷ rest else e ∷ rest

  unfoldable pub call_table : TableCall → List Execution → List Execution
  unfolding prepare call_row
  call_table (prepares now id r) db = (prepare jsonable canonical sha256 c now id r db).1
  call_table (calls key k) db = call_row key k db

  abbrev pub call_all : List TableCall → List Execution → List Execution
  call_all [] db = db
  call_all (k ∷ ks) db = call_all ks (call_table k db)

  abbrev Bound : PrepareRequest → String → Execution → Type 0
  Bound r id e = IsFor jsonable canonical sha256 r id e

  -- The table has a row for the request.
  abbrev pub Has : PrepareRequest → String → List Execution → Type 0
  Has r id db = (e : Execution) × (find r.idempotency_key db ≡ some e) × Bound r id e

  -- No method changes what a row is for.
  abbrev Keeps : Execution → Execution → Type 0
  Keeps e f =
      (f.id ≡ e.id)
      × (f.idempotency_key ≡ e.idempotency_key)
      × (f.run_id ≡ e.run_id)
      × (f.approval_id ≡ e.approval_id)
      × (f.qualified_name ≡ e.qualified_name)
      × (f.arguments_hash ≡ e.arguments_hash)

  step-Keeps : (k : Call) (e : Execution) → Keeps e (step print c k e)
  unfolding step claim complete mark_unknown recover_stale count_hit reconcile set_unknown
      recover_expired acquire
  step-Keeps (claims now token owner) e = ground arith
  step-Keeps (completes now token result did_fail) e = ground arith
  step-Keeps (loses now token reason) e = ground arith
  step-Keeps (recovers now) e = ground arith
  step-Keeps (reconciles now action expected d) e = ground arith

  step-Bound :
      (k : Call) (e : Execution) (r : PrepareRequest) (id : String)
      → Bound r id e
      → Bound r id (step print c k e)
  step-Bound k e r id b =
      let (same_id, same_key, same_run, same_approval, same_tool, same_hash) = step-Keeps k e in
      record {
        same_id = same_id ∙ b.same_id;
        same_key = same_key ∙ b.same_key;
        same_run = same_run ∙ b.same_run;
        same_approval = same_approval ∙ b.same_approval;
        same_tool = same_tool ∙ b.same_tool;
        same_arguments = same_hash ∙ b.same_arguments;
      }

  find-key :
      (key : String) (db : List Execution) (e : Execution)
      → find key db ≡ some e
      → e.idempotency_key ≡ key
  unfolding find
  find-key key [] e h = ground arith
  find-key key (f ∷ db) e h = ground (arith, find-key key db e, eq_iff f.idempotency_key key)

  -- A call on the row of another key, and on the row of this one.
  find-call_other :
      (key other : String) (k : Call) (db : List Execution)
      → str_eq other key ≡ false
      → find key (call_row other k db) ≡ find key db
  unfolding find call_row
  find-call_other key other k [] differ = refl
  find-call_other key other k (e ∷ db) differ = ground (
    arith,
    find-call_other key other k db differ,
    (step-Keeps k e).1,
    eq_iff e.idempotency_key key,
    eq_iff e.idempotency_key other,
    eq_iff other key,
    eq_iff (step print c k e).idempotency_key key,
  )

  find-call :
      (key : String) (k : Call) (db : List Execution) (e : Execution)
      → find key db ≡ some e
      → find key (call_row key k db) ≡ some (step print c k e)
  unfolding find call_row
  find-call key k [] e found = ground arith
  find-call key k (f ∷ db) e found = ground (
    arith,
    found,
    find-call key k db e,
    (step-Keeps k f).1,
    eq_iff f.idempotency_key key,
    eq_iff (step print c k f).idempotency_key key,
  )

  find-prepare :
      (now : ℕ) (id key : String) (r : PrepareRequest) (db : List Execution) (e : Execution)
      → find key db ≡ some e
      → find key (prepare jsonable canonical sha256 c now id r db).1 ≡ some e
  unfolding find prepare
  find-prepare now id key r db e found = elim (Option-cases (find r.idempotency_key db)) [
    | inl absent ↦ ground (arith, absent, found, eq_iff r.idempotency_key key)
    | inr (old, there) ↦ ground (arith, there, found)
  ]

  call_table-Has :
      (k : TableCall) (db : List Execution) (r : PrepareRequest) (id : String)
      → Has r id db
      → Has r id (call_table k db)
  unfolding call_table
  call_table-Has (prepares now id' r') db r id (e, found, b) =
      (e, find-prepare now id' r.idempotency_key r' db e found, b)
  call_table-Has (calls key k) db r id (e, found, b) =
      elim (Bool-cases (str_eq key r.idempotency_key)) [
        | inl same ↦ (
          step print c k e,
          ap (λ j. find r.idempotency_key (call_row j k db)) ((eq_iff key r.idempotency_key).0 same)
              ∙ find-call r.idempotency_key k db e found,
          step-Bound k e r id b,
        )
        | inr other ↦ (e, find-call_other r.idempotency_key key k db other ∙ found, b)
      ]

  call_all-Has :
      (ks : List TableCall) (db : List Execution) (r : PrepareRequest) (id : String)
      → Has r id db
      → Has r id (call_all ks db)
  call_all-Has [] db r id has = has
  call_all-Has (k ∷ ks) db r id has =
      call_all-Has ks (call_table k db) r id (call_table-Has k db r id has)

  -- A request that `prepare` returns a row for has that row in the table.
  prepared-Has :
      (now : ℕ) (id : String) (r : PrepareRequest) (db : List Execution) {e : Execution}
      → (prepare jsonable canonical sha256 c now id r db).0 ≡ ok e
      → Has r e.id (prepare jsonable canonical sha256 c now id r db).1
  unfolding prepare find
  prepared-Has now id r db {e} h = elim (Option-cases (find r.idempotency_key db)) [
    | inl absent ↦
        (e, ground (arith, absent, h, eq_refl r.idempotency_key), ground (arith, absent, h))
    | inr (old, there) ↦ (
      e,
      ground (arith, there, h),
      ground (
        arith,
        there,
        h,
        find-key r.idempotency_key db old there,
        eq_iff old.run_id r.run_id,
        same_text-eq old.approval_id r.approval_id,
        eq_iff old.qualified_name r.call.qualified_name,
        eq_iff old.arguments_hash
            (sha256_json jsonable canonical sha256 (arguments_of jsonable canonical sha256 r)),
      ),
    )
  ]

  again-Has :
      (later : ℕ) (id id' : String) (r : PrepareRequest) (db : List Execution) (e : Execution)
      → find r.idempotency_key db ≡ some e
      → Bound r id e
      → prepare jsonable canonical sha256 c later id' r db ≡ (ok e, db)
  unfolding prepare
  again-Has later id id' r db e found b = ground (
    arith,
    found,
    b,
    eq_refl r.run_id,
    eq_refl r.call.qualified_name,
    eq_refl e.arguments_hash,
    same_text_refl r.approval_id,
  )

  -- A request that is prepared again, at any time, after any other requests were prepared and any
  -- methods called on any rows, gets the row of the first time as the table has it by then, for the
  -- same run, approval, tool and arguments, and the table stays as it is.
  pub prepare_again :
      (now later : ℕ) (id id' : String) (r : PrepareRequest) (db : List Execution) {e : Execution}
      → (prepare jsonable canonical sha256 c now id r db).0 ≡ ok e
      → (ks : List TableCall)
      → let table = call_all ks (prepare jsonable canonical sha256 c now id r db).1 in
        (f : Execution) × (prepare jsonable canonical sha256 c later id' r table ≡ (ok f, table))
        × (find r.idempotency_key table ≡ some f)
        × IsFor jsonable canonical sha256 r e.id f
  prepare_again now later id id' r db {e} h ks =
      let table = call_all ks (prepare jsonable canonical sha256 c now id r db).1 in
      let (f, found, b) =
        call_all-Has ks (prepare jsonable canonical sha256 c now id r db).1 r e.id
          (prepared-Has now id r db h) in
      (f, again-Has later e.id id' r table f found b, found, b)

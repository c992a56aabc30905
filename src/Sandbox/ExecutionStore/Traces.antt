-- ===== src/Sandbox/ExecutionStore/Traces.antt =====
-- Any interleaving of calls of the store, from any owners, as a list of calls with their times.
use text.Mathlib.Text.{◌==◌ as str_eq}
use text.Mathlib.TextEquality.{eq_iff}
use code_mate.Prelude.{
  ℕ, ◌≤◌, ◌<◌, ◌≡◌, refl, String, Bool, true, inl, inr, some, List, [], ◌∷◌, Bool-cases, arith, ap,
  ◌∙◌,
}
use code_mate.Dict.{lookup, lookup-insert}
use code_mate.Sandbox.ExecutionStore.{
  Store, Row, ClaimRequest, CompleteRequest, leased_row, completed_row, is_running, claim, complete,
}
use code_mate.Sandbox.ExecutionStore.Steps.{claim-executions, claim-acquired, complete-cases}

pub data Call : Type 0 where
  claims : ℕ → ClaimRequest → Call
  completes : ℕ → CompleteRequest → Call

abbrev pub time_of : Call → ℕ
time_of (claims now r) = now
time_of (completes now r) = now

abbrev pub step : Call → Store → Store
step (claims now r) s = (claim now r s).0
step (completes now r) s = (complete now r s).0

abbrev pub run : List Call → Store → Store
run [] s = s
run (c ∷ cs) s = run cs (step c s)

-- Every call of the list is made at a time that satisfies the test.
abbrev pub AllAt : (ℕ → Type 0) → List Call → Type 0
AllAt P [] = Unit
AllAt P (c ∷ cs) = P (time_of c) × AllAt P cs

-- The row of an execution, as a later call finds it.
abbrev pub HasRow : String → (Row → Type 0) → Store → Type 0
HasRow k P s = (row : Row) × (lookup k s.executions ≡ some row) × P row

-- A property of the row that every call keeps holds after any calls.
pub run-HasRow :
    (k : String) (P : Row → Type 0) (T : ℕ → Type 0)
    → ((c : Call) (s : Store) → T (time_of c) → HasRow k P s → HasRow k P (step c s))
    → (cs : List Call) (s : Store) → AllAt T cs
    → HasRow k P s
    → HasRow k P (run cs s)
run-HasRow k P T keep [] s t h = h
run-HasRow k P T keep (c ∷ cs) s t h = run-HasRow k P T keep cs (step c s) t.1 (keep c s t.0 h)

-- How a call changes the row of one execution: not at all, by a lease of what is not leased, or by
-- the completion of a live lease.
pub step-HasRow :
    (k : String) (P : Row → Type 0) (c : Call) (s : Store)
    → ((r : ClaimRequest) (row : Row) (now : ℕ)
        → time_of c ≡ now
        → P row
        → is_running row.state ≡ true
        → row.lease_until ≤ now
        → P (leased_row now r (some row)))
    → ((r : CompleteRequest) (row : Row) (now : ℕ)
        → time_of c ≡ now
        → P row
        → is_running row.state ≡ true
        → now < row.lease_until
        → P (completed_row r.response row))
    → HasRow k P s
    → HasRow k P (step c s)
step-HasRow k P (claims now r) s leases ends (row, e, h) = elim (claim-executions now r s) [
  | inl (same, _) ↦ (row, ap (lookup k) same ∙ e, h)
  | inr (new, got) ↦ elim (Bool-cases (str_eq r.execution_id k)) [
    | inl eq ↦
        let own : lookup r.execution_id s.executions ≡ some row =
          rw ((eq_iff r.execution_id k).0 eq) e in
        let (live, _, expired) = claim-acquired now r s got own in
        (
          leased_row now r (some row),
          ground (
            arith,
            own,
            new,
            lookup-insert r.execution_id k (leased_row now r (lookup r.execution_id s.executions))
                s.executions,
          ),
          leases r row now refl h live expired,
        )
    | inr ne ↦ (
      row,
      ground (
        arith,
        new,
        lookup-insert r.execution_id k (leased_row now r (lookup r.execution_id s.executions))
            s.executions,
      ),
      h,
    )
  ]
]
step-HasRow k P (completes now r) s leases ends (row, e, h) = elim (complete-cases now r s) [
  | inl same ↦ (row, ap (λ (p : Store × Bool). lookup k p.0.executions) same ∙ e, h)
  | inr (old, done) ↦ elim (Bool-cases (str_eq r.execution_id k)) [
    | inl eq ↦
        let own : lookup r.execution_id s.executions ≡ some row =
          rw ((eq_iff r.execution_id k).0 eq) e in
        (
          completed_row r.response row,
          ground (
            arith,
            own,
            done.found,
            done.result,
            lookup-insert r.execution_id k (completed_row r.response old) s.executions,
          ),
          ends r row now refl h (ground (arith, own, done.found, done.was_running))
              (ground (arith, own, done.found, done.in_lease)),
        )
    | inr ne ↦ (
      row,
      ground (
        arith,
        done.result,
        lookup-insert r.execution_id k (completed_row r.response old) s.executions,
      ),
      h,
    )
  ]
]

-- ===== src/Sandbox/ExecutionStore/Exclusion.antt =====
-- One owner at a time: leases, attempts and completed results over every interleaving of calls.
use text.Mathlib.Text.{◌==◌ as str_eq}
use text.Mathlib.TextEquality.{eq_iff}
use code_mate.Prelude.{
  ℕ, ◌+◌, ◌≤◌, ◌<◌, ◌≡◌, ◌≢◌, refl, true, false, ◌⊎◌, inl, inr, some, List, ap, ◌∙◌, arith,
  if◌then◌else◌,
}
use code_mate.Dict.{lookup, lookup-insert_self}
use code_mate.Sandbox.ExecutionStore.{
  Store, Row, ClaimRequest, CompleteRequest, acquired, cached, conflict, replied, leased_row,
  completed_row, attempt_of, is_running, claim, complete,
}
use code_mate.Sandbox.ExecutionStore.Steps.{claim-executions, claim-acquired, complete-cases}
use code_mate.Sandbox.ExecutionStore.Traces.{Call, run, AllAt, HasRow, run-HasRow, step-HasRow}

abbrev Always : ℕ → Type 0
Always now = Unit

AllAt-Always : (cs : List Call) → AllAt Always cs
AllAt-Always List.[] = tt
AllAt-Always (List.◌∷◌ c cs) = (tt, AllAt-Always cs)

-- The row of an execution that has been completed for a request.
record IsDone (r : CompleteRequest) (row : Row) : Type 0 where
  ended : is_running row.state ≡ false
  request : row.request_hash ≡ r.request_hash
  answer : row.response ≡ some r.response
  number : row.attempt ≡ r.attempt

module _ (now : ℕ) (r : CompleteRequest) (s : Store) (done : (complete now r s).1 ≡ true) where
  complete-HasRow : HasRow r.execution_id (IsDone r) (complete now r s).0
  complete-HasRow = elim (complete-cases now r s) [
    | inl no_change ↦ cc
    | inr (row, c) ↦ (
      completed_row r.response row,
      ground (
        arith,
        c.result,
        lookup-insert_self r.execution_id (completed_row r.response row) s.executions,
      ),
      record { ended = refl; request = c.same_request; answer = refl; number = c.same_attempt },
    )
  ]

  run-IsDone : (cs : List Call) → HasRow r.execution_id (IsDone r) (run cs (complete now r s).0)
  run-IsDone cs =
      run-HasRow r.execution_id (IsDone r) Always
        (λ c t _.
          step-HasRow r.execution_id (IsDone r) c t (λ q row at e d live expired. ground arith)
            (λ q row at e d live in_lease. ground arith))
        cs (complete now r s).0 (AllAt-Always cs) complete-HasRow

  -- After a completion, and any calls at any times after it, a claim for the execution is answered
  -- with the completed response and its attempt if it is for the same request, and with a conflict
  -- if it is for another.
  pub complete_then_cached :
      (cs : List Call) (later : ℕ) (q : ClaimRequest)
      → q.execution_id ≡ r.execution_id
      → (claim later q (run cs (complete now r s).0)).1 ≡ (
          if str_eq r.request_hash q.request_hash
          then record { status = cached; response = some r.response; attempt = r.attempt }
          else replied conflict 0)
  unfolding claim
  complete_then_cached cs later q same =
      let (row, e, d) = run-IsDone cs in
      ground (arith, e, d, eq_iff row.request_hash q.request_hash)

  -- An execution is completed once: after a completion, and any calls at any times after it, every
  -- further completion of the execution is refused and changes nothing.
  complete_once :
      (cs : List Call) (later : ℕ) (q : CompleteRequest)
      → q.execution_id ≡ r.execution_id
      → complete later q (run cs (complete now r s).0) ≡ (run cs (complete now r s).0, false)
  complete_once cs later q same =
      let (row, e, d) = run-IsDone cs in
      elim (complete-cases later q (run cs (complete now r s).0)) [
        | inl refused ↦ refused
        | inr (old, c) ↦ ground (arith, e, d, c.found, c.was_running)
      ]

module _ (now : ℕ) (r : ClaimRequest) (s : Store) (got : (claim now r s).1.status ≡ acquired) where
  claim-HasRow :
      HasRow r.execution_id
        (λ row. row ≡ leased_row now r (lookup r.execution_id s.executions))
        (claim now r s).0
  claim-HasRow = elim (claim-executions now r s) [
    | inl (_, other) ↦ absurd (other got)
    | inr (new, _) ↦ (
      leased_row now r (lookup r.execution_id s.executions),
      ap (lookup r.execution_id) new
          ∙ lookup-insert_self r.execution_id
              (leased_row now r (lookup r.execution_id s.executions)) s.executions,
      refl,
    )
  ]

  -- A claim that acquires is given the next attempt number.
  claim-attempt : (claim now r s).1.attempt ≡ attempt_of (lookup r.execution_id s.executions) + 1
  unfolding claim
  claim-attempt = ground arith

  -- While a lease lasts nobody else acquires the execution: after a claim that acquires, and any
  -- calls made before its lease ends, no claim for the execution made before then acquires it.
  pub lease_excludes :
      (cs : List Call) (later : ℕ) (q : ClaimRequest)
      → AllAt (λ t. t < now + r.lease_seconds) cs
      → later < now + r.lease_seconds
      → q.execution_id ≡ r.execution_id
      → (claim later q (run cs (claim now r s).0)).1.status ≢ acquired
  lease_excludes cs later q times in_time same again =
      let (row, e, kept) = held in
      let free : (is_running row.state ≡ true)
          × (row.request_hash ≡ q.request_hash)
          × (row.lease_until ≤ later) =
        claim-acquired later q (run cs (claim now r s).0) again
          (ap (λ k. lookup k (run cs (claim now r s).0).executions) same ∙ e) in
      ground (arith, free)
    where
      Held : Row → Type 0
      Held row = (is_running row.state ≡ false) ⊎ (row.lease_until ≡ now + r.lease_seconds)

      held : HasRow r.execution_id Held (run cs (claim now r s).0)
      held =
          run-HasRow r.execution_id Held (λ t. t < now + r.lease_seconds)
            (λ c t early.
              step-HasRow r.execution_id Held c t (λ q row at e d live expired. ground arith)
                (λ q row at e d live in_lease. inl refl))
            cs (claim now r s).0 times
            (let (row, e, eq) = claim-HasRow in (row, e, inr (ap (λ (x : Row). x.lease_until) eq)))

  -- A result of an earlier attempt is never committed: once an attempt has been acquired, and after
  -- any calls at any times, a completion that carries a smaller attempt number is refused and
  -- changes nothing.
  pub stale_attempt_refused :
      (cs : List Call) (later : ℕ) (q : CompleteRequest)
      → q.execution_id ≡ r.execution_id
      → q.attempt < (claim now r s).1.attempt
      → complete later q (run cs (claim now r s).0) ≡ (run cs (claim now r s).0, false)
  stale_attempt_refused cs later q same older =
      let (row, e, kept) = raised in
      elim (complete-cases later q (run cs (claim now r s).0)) [
        | inl refused ↦ refused
        | inr (old, c) ↦ absurd (ground (arith, e, kept, c.found, c.same_attempt))
      ]
    where
      Raised : Row → Type 0
      Raised row = (claim now r s).1.attempt ≤ row.attempt

      raised : HasRow r.execution_id Raised (run cs (claim now r s).0)
      raised =
          run-HasRow r.execution_id Raised Always
            (λ c t _.
              step-HasRow r.execution_id Raised c t (λ q row at e d live expired. omega arith)
                (λ q row at e d live in_lease. d))
            cs (claim now r s).0 (AllAt-Always cs)
            (let (row, e, eq) = claim-HasRow in
              (row, e, omega (arith, claim-attempt, ap (λ (x : Row). x.attempt) eq)))

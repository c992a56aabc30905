-- ===== src/Sandbox/ExecutionStore/Steps.antt =====
-- One call of `claim` or `complete`, seen from one execution and from one assertion.
use text.Mathlib.TextEquality.{eq_iff}
use code_mate.Prelude.{
  ℕ, ◌≤◌, ◌<◌, ◌≡◌, ◌≢◌, true, false, ◌⊎◌, inl, inr, some, Bool-cases, Option-cases, arith,
}
use code_mate.Dict.{lookup, insert}
use code_mate.Sandbox.ExecutionStore.{
  Store, Row, ClaimRequest, CompleteRequest, acquired, leased_row, completed_row, is_running,
  lost_lease, claim, complete,
}

-- A claim leaves the executions alone unless it acquires, and then it leases its own.
pub claim-executions :
    (now : ℕ) (r : ClaimRequest) (s : Store)
    → ((claim now r s).0.executions ≡ s.executions) × ((claim now r s).1.status ≢ acquired)
      ⊎ ((claim now r s).0.executions
          ≡ insert r.execution_id
              (leased_row now r (lookup r.execution_id s.executions))
              s.executions)
        × ((claim now r s).1.status ≡ acquired)
unfolding claim
claim-executions now r s = ground arith

-- What a claim that acquires found: no row, or its own request running with its lease expired.
pub claim-acquired :
    (now : ℕ) (r : ClaimRequest) (s : Store) {row : Row}
    → (claim now r s).1.status ≡ acquired
    → lookup r.execution_id s.executions ≡ some row
    → (is_running row.state ≡ true) × (row.request_hash ≡ r.request_hash) × (row.lease_until ≤ now)
unfolding claim
claim-acquired now r s {row} h e = ground (arith, eq_iff row.request_hash r.request_hash)

-- What `complete` does: nothing, or it completes the row of its own request, owner and attempt,
-- under a lease that has not expired.
pub record Completes (now : ℕ) (r : CompleteRequest) (s : Store) (row : Row) : Type 0 where
  pub found : lookup r.execution_id s.executions ≡ some row
  pub was_running : is_running row.state ≡ true
  pub same_request : row.request_hash ≡ r.request_hash
  pub same_owner : row.owner ≡ r.owner
  pub same_attempt : row.attempt ≡ r.attempt
  pub in_lease : now < row.lease_until
  pub result : complete now r s ≡ (
    record s { executions = insert r.execution_id (completed_row r.response row) s.executions },
    true,
  )

pub complete-cases :
    (now : ℕ) (r : CompleteRequest) (s : Store)
    → (complete now r s ≡ (s, false)) ⊎ ((row : Row) × Completes now r s row)
unfolding complete
complete-cases now r s = elim (Option-cases (lookup r.execution_id s.executions)) [
  | inl e ↦ inl (rw (e, complete))
  | inr (row, e) ↦ elim (Bool-cases (lost_lease now r row)) [
    | inl lost ↦ inl (rw (e, complete) (rw lost))
    | inr held ↦ inr (
      row,
      record {
        found = e;
        was_running = ground arith;
        same_request = ground (arith, eq_iff row.request_hash r.request_hash);
        same_owner = ground (arith, eq_iff row.owner r.owner);
        same_attempt = ground arith;
        in_lease = ground arith;
        result = rw (e, complete) (rw held);
      },
    )
  ]
]

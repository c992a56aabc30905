-- ===== src/Sandbox/ExecutionStore.antt =====
-- `MemoryExecutionStateStore` of backend/app/sandbox/execution_store.py, with `ExecutionResponse`
-- of backend/app/sandbox/execution_protocol.py. Times are ticks of one clock; each method holds the
-- lock, so it is one step, and reads the time once.
pub mod Steps
pub mod Traces
pub mod Exclusion
pub mod Replay
use text.Mathlib.Text.{◌==◌ as str_eq}
use code_mate.Prelude.{
  ℕ, ◌+◌, String, Bool, true, false, not, ◌&&◌, ◌||◌, Option, none, some, [], ltb, leb, ◌==◌,
  if◌then◌else◌,
}
use code_mate.Json.{ℤ}
use code_mate.Dict.{Dict, lookup, insert, keep}

pub data Backend : Type 0 where
  firecracker kubernetes : Backend

pub record ExecutionResponse : Type 0 where
  pub execution_id : String
  pub backend : Backend
  pub passed : Bool
  pub exit_code : ℤ
  pub stdout : String
  pub stderr : String
  pub timed_out : Bool
  pub archive_sha256 : String
  pub workload_subject : String
  pub attestation : Dict String

pub data ClaimStatus : Type 0 where
  acquired cached in_progress conflict replayed : ClaimStatus

pub record ExecutionClaim : Type 0 where
  pub status : ClaimStatus
  pub response : Option ExecutionResponse
  pub attempt : ℕ

pub data RowState : Type 0 where
  running completed : RowState

abbrev pub is_running : RowState → Bool
is_running running = true
is_running completed = false

-- One value of `_executions`; `response` is there once the row is completed.
pub record Row : Type 0 where
  pub request_hash : String
  pub state : RowState
  pub owner : String
  pub lease_until : ℕ
  pub attempt : ℕ
  pub response : Option ExecutionResponse

-- `_replays` has the expiry and the execution of each assertion.
pub record Store : Type 0 where
  pub replays : Dict (ℕ × String)
  pub executions : Dict Row

abbrev pub empty_store : Store
empty_store = record { replays = []; executions = [] }

pub record ClaimRequest : Type 0 where
  pub execution_id : String
  pub request_hash : String
  pub assertion_jti : String
  pub assertion_ttl : ℕ
  pub owner : String
  pub lease_seconds : ℕ

pub record CompleteRequest : Type 0 where
  pub execution_id : String
  pub request_hash : String
  pub owner : String
  pub attempt : ℕ
  pub response : ExecutionResponse

abbrev pub replied : ClaimStatus → ℕ → ExecutionClaim
replied status attempt = record { status = status; response = none; attempt = attempt }

-- `value[0] >= now`
abbrev pub is_fresh : ℕ → ℕ × String → Bool
is_fresh now (expiry, execution_id) = leb now expiry

abbrev pub attempt_of : Option Row → ℕ
attempt_of none = 0
attempt_of (some row) = row.attempt

-- The row that a claim leaves when it acquires the execution.
abbrev pub leased_row : ℕ → ClaimRequest → Option Row → Row
leased_row now r row = record {
  request_hash = r.request_hash;
  state = running;
  owner = r.owner;
  lease_until = now + r.lease_seconds;
  attempt = attempt_of row + 1;
  response = none;
}

abbrev pub completed_row : ExecutionResponse → Row → Row
completed_row response row = record row {
  state = completed;
  response = some response;
  lease_until = 0;
}

-- The end of `claim`: the assertion is recorded, and the execution is leased unless it is leased.
unfoldable pub lease : ℕ → ClaimRequest → Option Row → Store → Store × ExecutionClaim
lease now r row s =
    let t = record s {
      replays = insert r.assertion_jti (now + r.assertion_ttl, r.execution_id) s.replays;
    } in
    let fresh : Store × ExecutionClaim = (
      record t { executions = insert r.execution_id (leased_row now r row) t.executions },
      replied acquired (attempt_of row + 1),
    ) in
    elim row [
      | none ↦ fresh
      | some old ↦ if ltb now old.lease_until then (t, replied in_progress old.attempt) else fresh
    ]

-- `claim` below the two tests on the row.
unfoldable pub check_replay : ℕ → ClaimRequest → Option Row → Store → Store × ExecutionClaim
unfolding lease
check_replay now r row s = elim (lookup r.assertion_jti s.replays) [
  | none ↦ lease now r row s
  | some replay ↦ elim row [
    | none ↦ (s, replied replayed 0)
    | some old ↦
        if str_eq replay.1 r.execution_id && is_running old.state
        then (s, replied in_progress old.attempt)
        else (s, replied replayed 0)
  ]
]

unfoldable pub claim : ℕ → ClaimRequest → Store → Store × ExecutionClaim
unfolding check_replay
claim now r s =
    let t = record s { replays = keep (is_fresh now) s.replays } in
    elim (lookup r.execution_id t.executions) [
      | none ↦ check_replay now r none t
      | some row ↦
          if not (str_eq row.request_hash r.request_hash)
          then (t, replied conflict 0)
          else if not (is_running row.state)
          then (t, record { status = cached; response = row.response; attempt = row.attempt })
          else check_replay now r (some row) t
    ]

-- The conditions under which `complete` refuses, on the row that it finds.
abbrev pub lost_lease : ℕ → CompleteRequest → Row → Bool
lost_lease now r row =
    not (is_running row.state)
    || not (str_eq row.request_hash r.request_hash)
    || not (str_eq row.owner r.owner)
    || not (row.attempt == r.attempt)
    || leb row.lease_until now

unfoldable pub complete : ℕ → CompleteRequest → Store → Store × Bool
complete now r s = elim (lookup r.execution_id s.executions) [
  | none ↦ (s, false)
  | some row ↦ if lost_lease now r row then (s, false) else (
    record s { executions = insert r.execution_id (completed_row r.response row) s.executions },
    true,
  )
]

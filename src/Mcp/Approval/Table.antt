-- ===== src/Mcp/Approval/Table.antt =====
-- One active approval for each run, and one request for each approval.
use text.Mathlib.TextEquality.{eq_iff}
use text.Mathlib.TextPositions.{eq_refl}
use code_mate.Prelude.{
  ℕ, ◌+◌, ◌≤◌, ◌≡◌, refl, String, true, Option, none, List, [], ◌∷◌, ◌∙◌, arith, if◌then◌else◌,
}
use code_mate.Json.{Json, Fields}
use code_mate.Mcp.Approval.Row.{Approval, Settings}
use code_mate.Mcp.Approval.Methods.{claim_at, resume_at}
use code_mate.Mcp.Approval.Steps.{
  Call, decides, expires, claims, finishes, waits, requeues, step, run,
}
use code_mate.Mcp.Approval.Create.{
  AgentRun, ToolCall, created, find_active, is_active_for, later_of, pending_row, create_pending,
  verify_checkpoint,
}

-- The active approvals of a run.
abbrev pub count_active : String → List Approval → ℕ
count_active run_id [] = 0
count_active run_id (a ∷ db) = (if is_active_for run_id a then 1 else 0) + count_active run_id db

later_of-some : (a : Approval) (o : Option Approval) → later_of a o ≡ none → ⊥
later_of-some a o e = ground arith

find_active-none :
    (run_id : String) (db : List Approval)
    → find_active run_id db ≡ none
    → count_active run_id db ≡ 0
unfolding find_active
find_active-none run_id [] e = refl
find_active-none run_id (a ∷ db) e =
    ground (arith, later_of-some a (find_active run_id db), find_active-none run_id db)

module _ (jsonable : Json → Json) (canonical : Json → String) (sha256 : String → String)
    (print : Json → String) (c : Settings) where
  -- `create_pending` never leaves a run with two active approvals, whatever it returns and whichever
  -- run it is called for, where no run had two before.
  pub create-one_active :
      (now : ℕ) (id : String) (r : AgentRun) (call : ToolCall) (entry checkpoint : Fields)
      (db : List Approval) (run_id : String)
      → count_active run_id db ≤ 1
      → count_active run_id
          (create_pending jsonable canonical sha256 print c now id r call entry checkpoint db).2
        ≤ 1
  unfolding create_pending pending_row
  create-one_active now id r call entry checkpoint db run_id one =
      ground (arith, find_active-none r.id db, eq_iff r.id run_id)

  -- A run that asks again while its approval is active gets the same approval, and neither the table
  -- nor the run is changed.
  create_again :
      (now later : ℕ) (id id' : String) (r : AgentRun) (call call' : ToolCall)
      (entry checkpoint entry' checkpoint' : Fields) (db : List Approval) {a : Approval}
      → (create_pending jsonable canonical sha256 print c now id r call entry checkpoint db).0
        ≡ created a
      → create_pending jsonable canonical sha256 print c later id'
          (create_pending jsonable canonical sha256 print c now id r call entry checkpoint db).1
          call'
          entry'
          checkpoint'
          (create_pending jsonable canonical sha256 print c now id r call entry checkpoint db).2
        ≡ (
          created a,
          (create_pending jsonable canonical sha256 print c now id r call entry checkpoint db).1,
          (create_pending jsonable canonical sha256 print c now id r call entry checkpoint db).2,
        )
  unfolding create_pending pending_row find_active
  create_again now later id id' r call call' entry checkpoint entry' checkpoint' db got =
      ground (arith, eq_refl r.id)

-- What the reviewer of an approval is asked to grant.
abbrev pub request :
    Approval → String × String × String × String × Json × String × Json × String × ℕ
request a = (
  a.run_id, a.qualified_name, a.server_name, a.tool_name, a.arguments_json, a.arguments_hash,
  a.checkpoint_json, a.checkpoint_hash, a.expires_at,
)

module _ (jsonable : Json → Json) (canonical : Json → String) (sha256 : String → String)
    (print : Json → String) (c : Settings) where
  step-request : (k : Call) (a : Approval) → request (step jsonable print c k a) ≡ request a
  unfolding step claim_at resume_at
  step-request (decides now decision reason actor provider expected) a = ground arith
  step-request (expires now) a = ground arith
  step-request (claims now) a = ground arith
  step-request (finishes now result did_fail) a = ground arith
  step-request (waits now error) a = ground arith
  step-request (requeues now) a = ground arith

  run-request : (ks : List Call) (a : Approval) → request (run jsonable print c ks a) ≡ request a
  run-request [] a = refl
  run-request (k ∷ ks) a = run-request ks (step jsonable print c k a) ∙ step-request k a

  verify-request :
      (a b : Approval)
      → request a ≡ request b
      → verify_checkpoint jsonable canonical sha256 print a
        ≡ verify_checkpoint jsonable canonical sha256 print b
  unfolding verify_checkpoint
  verify-request a b p = ground (arith, p)

  pending_row-verify :
      (now : ℕ) (id run_id : String) (call : ToolCall) (entry checkpoint : Fields)
      → verify_checkpoint jsonable canonical sha256 print
          (pending_row jsonable canonical sha256 print c now id run_id call entry checkpoint)
        ≡ true
  unfolding pending_row verify_checkpoint
  pending_row-verify now id run_id call entry checkpoint = eq_refl _

  -- What is resumed is what was asked for: from its creation on, whatever is called, an approval keeps
  -- its run, tool, arguments, checkpoint and expiry, and its checkpoint passes the check against the
  -- hash that was stored with it.
  pub approved_as_requested :
      (now : ℕ) (id run_id : String) (call : ToolCall) (entry checkpoint : Fields) (ks : List Call)
      → (request (
            run jsonable print c ks
              (pending_row jsonable canonical sha256 print c now id run_id call entry checkpoint))
          ≡ request
              (pending_row jsonable canonical sha256 print c now id run_id call entry checkpoint))
        × (verify_checkpoint jsonable canonical sha256 print (
              run jsonable print c ks
                (pending_row jsonable canonical sha256 print c now id run_id call entry checkpoint))
            ≡ true)
  approved_as_requested now id run_id call entry checkpoint ks =
      let row = pending_row jsonable canonical sha256 print c now id run_id call entry checkpoint in
      (
        run-request ks row,
        verify-request (run jsonable print c ks row) row (run-request ks row)
            ∙ pending_row-verify now id run_id call entry checkpoint,
      )

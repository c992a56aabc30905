-- ===== src/Mcp/Approval/Steps.antt =====
-- The life of one approval: any interleaving of the methods, called by reviewers, by the expiry
-- job, by workers and by operators at any times.
use code_mate.Prelude.{ℕ, ◌+◌, String, Bool, Option, List, [], ◌∷◌}
use code_mate.Json.{Json, Fields}
use code_mate.Mcp.Approval.Row.{Approval, Settings, Reply, returned}
use code_mate.Mcp.Approval.Methods.{
  decide, expire, claim_for_resume, finish, mark_waiting_reconciliation, prepare_resume_target,
}

pub data Call : Type 0 where
  decides : ℕ → String → Option String → String → String → ℕ → Call
  expires : ℕ → Call
  claims : ℕ → Call
  finishes : ℕ → Fields → Bool → Call
  waits : ℕ → Option String → Call
  requeues : ℕ → Call

module _ (jsonable : Json → Json) (print : Json → String) (c : Settings) where
  unfoldable pub step : Call → Approval → Approval
  unfolding decide expire claim_for_resume finish mark_waiting_reconciliation prepare_resume_target
  step (decides now decision note actor provider expected) a =
      (decide now decision note actor provider expected a).1
  step (expires now) a = (expire now a).1
  step (claims now) a = (claim_for_resume c now a).1
  step (finishes now result did_fail) a = finish jsonable print now result did_fail a
  step (waits now error) a = mark_waiting_reconciliation now error a
  step (requeues now) a = prepare_resume_target now a

  abbrev pub run : List Call → Approval → Approval
  run [] a = a
  run (k ∷ ks) a = run ks (step k a)

-- Whether the row was returned.
abbrev pub is_returned : Reply → ℕ
is_returned returned = 1
is_returned r = 0

module _ (jsonable : Json → Json) (print : Json → String) (c : Settings) where
  unfoldable pub resumes : Call → Approval → ℕ
  unfolding claim_for_resume
  resumes (claims now) a = is_returned (claim_for_resume c now a).0
  resumes k a = 0

  -- The calls that are given the approval to resume its run.
  abbrev pub resumptions : List Call → Approval → ℕ
  resumptions [] a = 0
  resumptions (k ∷ ks) a = resumes k a + resumptions ks (step jsonable print c k a)

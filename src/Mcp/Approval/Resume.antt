-- ===== src/Mcp/Approval/Resume.antt =====
-- One worker at a time resumes the run of an approval, from the checkpoint that was approved.
use code_mate.Prelude.{ℕ, ◌+◌, ◌<◌, ◌≡◌, refl, String, some, List, [], ◌∷◌, max, arith}
use code_mate.Json.{Json}
use code_mate.Mcp.Approval.Row.{Approval, Settings, resuming, returned}
use code_mate.Mcp.Approval.Methods.{claim_for_resume, claim_at}
use code_mate.Mcp.Approval.Steps.{
  Call, decides, expires, claims, finishes, waits, requeues, step, resumes, resumptions,
}

-- The calls are of other workers before a time, of reviewers and of the expiry job.
abbrev pub AreRivals : ℕ → List Call → Type 0
AreRivals end [] = Unit
AreRivals end (claims now ∷ ks) = (now < end) × AreRivals end ks
AreRivals end (decides now decision reason actor provider expected ∷ ks) = AreRivals end ks
AreRivals end (expires now ∷ ks) = AreRivals end ks
AreRivals end (k ∷ ks) = ⊥

-- A worker has the approval, since a time.
record IsResuming (since : ℕ) (a : Approval) : Type 0 where
  resuming_now : a.status ≡ resuming
  started : a.execution_started_at ≡ some since

module _ (jsonable : Json → Json) (print : Json → String) (c : Settings) where
  step-IsResuming :
      (since : ℕ) (k : Call) (ks : List Call) (a : Approval)
      → IsResuming since a
      → AreRivals (since + max 1 c.approval_resume_stale_seconds) (k ∷ ks)
      → (resumes jsonable print c k a ≡ 0)
        × IsResuming since (step jsonable print c k a)
        × AreRivals (since + max 1 c.approval_resume_stale_seconds) ks
  unfolding step resumes claim_at
  step-IsResuming since (decides now decision reason actor provider expected) ks a v r =
      ground arith
  step-IsResuming since (expires now) ks a v r = ground arith
  step-IsResuming since (claims now) ks a v r = ground arith
  step-IsResuming since (finishes now result did_fail) ks a v r = elim r [ ]
  step-IsResuming since (waits now error) ks a v r = elim r [ ]
  step-IsResuming since (requeues now) ks a v r = elim r [ ]

  resumptions-IsResuming :
      (since : ℕ) (ks : List Call) (a : Approval)
      → IsResuming since a
      → AreRivals (since + max 1 c.approval_resume_stale_seconds) ks
      → resumptions jsonable print c ks a ≡ 0
  resumptions-IsResuming since [] a v r = refl
  resumptions-IsResuming since (k ∷ ks) a v r =
      let (none_now, still, rest) = step-IsResuming since k ks a v r in
      omega
        (arith, none_now, resumptions-IsResuming since ks (step jsonable print c k a) still rest)

  claim-IsResuming :
      (now : ℕ) (a : Approval)
      → (claim_for_resume c now a).0 ≡ returned
      → IsResuming now (claim_for_resume c now a).1
  unfolding claim_for_resume claim_at
  claim-IsResuming now a got = ground arith

  -- Once a worker is given an approval to resume its run, no other worker is given it within the time
  -- after which a resumption counts as stale, while the first has not finished, is not waiting for a
  -- reconciliation and is not queued again by an operator.
  pub resume_excludes :
      (now : ℕ) (a : Approval) (ks : List Call)
      → (claim_for_resume c now a).0 ≡ returned
      → AreRivals (now + max 1 c.approval_resume_stale_seconds) ks
      → resumptions jsonable print c ks (claim_for_resume c now a).1 ≡ 0
  resume_excludes now a ks got rivals =
      resumptions-IsResuming now ks (claim_for_resume c now a).1 (claim-IsResuming now a got) rivals

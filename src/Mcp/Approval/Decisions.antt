-- ===== src/Mcp/Approval/Decisions.antt =====
-- One decision for each approval, made in time.
use code_mate.Prelude.{
  ℕ, ◌≤◌, ◌<◌, ◌≡◌, refl, String, Bool, true, false, is_some, Option, none, some, List, [], ◌∷◌,
  ◌∙◌, arith,
}
use code_mate.Json.{Json}
use code_mate.Mcp.Approval.Row.{
  Approval, Settings, Decision, approved, is_pending, is_decision, normalized_decision, Reply,
  returned,
}
use code_mate.Mcp.Approval.Methods.{decide, claim_at, resume_at}
use code_mate.Mcp.Approval.Steps.{
  Call, decides, expires, claims, finishes, waits, requeues, step, run,
}

-- A time that is before another.
abbrev pub IsInTime : Option ℕ → ℕ → Type 0
IsInTime none end = ⊥
IsInTime (some t) end = t < end

-- What holds of a row between two calls.
pub record IsSound (a : Approval) : Type 0 where
  pub undecided : is_pending a.status ≡ true → a.decision ≡ none
  pub undecided_at : is_pending a.status ≡ true → a.decided_at ≡ none
  pub in_time : a.decision ≡ some approved → IsInTime a.decided_at a.expires_at
  pub named : is_some a.decided_by ≡ is_some a.decision

-- The parts of a row that record a decision.
abbrev pub verdict :
    Approval → Option Decision × Option String × Option String × Option String × Option ℕ
verdict a = (a.decision, a.decision_note, a.decided_by, a.decided_provider, a.decided_at)

module _ (jsonable : Json → Json) (print : Json → String) (c : Settings) where
  -- Every method, on every branch, keeps the invariant of the row: a pending approval has no
  -- decision, an approval that was granted was granted before it expired, and a decision names who
  -- made it.
  pub step-IsSound : (k : Call) (a : Approval) → IsSound a → IsSound (step jsonable print c k a)
  unfolding step claim_at resume_at
  step-IsSound (decides now decision reason actor provider expected) a v = ground arith
  step-IsSound (expires now) a v = ground arith
  step-IsSound (claims now) a v = ground arith
  step-IsSound (finishes now result did_fail) a v = ground arith
  step-IsSound (waits now error) a v = ground arith
  step-IsSound (requeues now) a v = ground arith

  step-verdict :
      (k : Call) (a : Approval)
      → IsSound a
      → is_some a.decision ≡ true
      → verdict (step jsonable print c k a) ≡ verdict a
  unfolding step claim_at resume_at
  step-verdict (decides now decision reason actor provider expected) a v d = ground arith
  step-verdict (expires now) a v d = ground arith
  step-verdict (claims now) a v d = ground arith
  step-verdict (finishes now result did_fail) a v d = ground arith
  step-verdict (waits now error) a v d = ground arith
  step-verdict (requeues now) a v d = ground arith

  decided-IsSome :
      (a b : Approval)
      → verdict b ≡ verdict a
      → is_some a.decision ≡ true
      → is_some b.decision ≡ true
  decided-IsSome a b p d = ground arith

  -- A decision is final: once an approval is granted or rejected, its decision, note, decider and
  -- time stay the same whatever reviewers, the expiry job, workers and operators call afterwards. The row satisfies the
  -- invariant at the start.
  pub decision_final :
      (ks : List Call) (a : Approval)
      → IsSound a
      → is_some a.decision ≡ true
      → verdict (run jsonable print c ks a) ≡ verdict a
  decision_final [] a v d = refl
  decision_final (k ∷ ks) a v d =
      let same = step-verdict k a v d in
      decision_final ks (step jsonable print c k a) (step-IsSound k a v)
        (decided-IsSome a (step jsonable print c k a) same d)
      ∙ same

-- Every decision among the calls comes at a time or later.
abbrev pub AreLate : ℕ → List Call → Type 0
AreLate end [] = Unit
AreLate end (decides now decision reason actor provider expected ∷ ks) =
    (end ≤ now) × AreLate end ks
AreLate end (k ∷ ks) = AreLate end ks

module _ (jsonable : Json → Json) (print : Json → String) (c : Settings) where
  step-late :
      (k : Call) (ks : List Call) (a : Approval)
      → is_decision a.decision approved ≡ false
      → AreLate a.expires_at (k ∷ ks)
      → (is_decision (step jsonable print c k a).decision approved ≡ false)
        × AreLate (step jsonable print c k a).expires_at ks
  unfolding step claim_at resume_at
  step-late (decides now decision reason actor provider expected) ks a n l = ground arith
  step-late (expires now) ks a n l = ground arith
  step-late (claims now) ks a n l = ground arith
  step-late (finishes now result did_fail) ks a n l = ground arith
  step-late (waits now error) ks a n l = ground arith
  step-late (requeues now) ks a n l = ground arith

  -- A tool call is not approved too late: an approval that was not granted before it expired is never
  -- granted, whatever reviewers ask for afterwards and whatever else is called.
  pub late_never_approved :
      (ks : List Call) (a : Approval)
      → is_decision a.decision approved ≡ false
      → AreLate a.expires_at ks
      → is_decision (run jsonable print c ks a).decision approved ≡ false
  late_never_approved [] a n l = n
  late_never_approved (k ∷ ks) a n l =
      let (still_not, rest) = step-late k ks a n l in
      late_never_approved ks (step jsonable print c k a) still_not rest

-- Whether the row was returned.
abbrev pub is_ok : Reply → Bool
is_ok returned = true
is_ok r = false

-- A reviewer who repeats the decision that stands gets the approval back; one who contradicts it is
-- refused. Neither changes the row. The condition is a row that satisfies the invariant and is
-- decided.
decide_again :
    (now : ℕ) (decision : String) (reason : Option String) (actor provider : String) (expected : ℕ)
    (a : Approval)
    → IsSound a
    → is_some a.decision ≡ true
    → ((decide now decision reason actor provider expected a).1 ≡ a)
      × (is_decision a.decision (normalized_decision decision)
          ≡ is_ok (decide now decision reason actor provider expected a).0)
unfolding decide
decide_again now decision reason actor provider expected a v d = ground arith

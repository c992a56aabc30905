-- ===== src/Sandbox/ExecutionStore/Replay.antt =====
-- An assertion is used once while its record is kept.
use text.Mathlib.TextEquality.{eq_iff}
use code_mate.Prelude.{
  ℕ, ◌+◌, ◌≤◌, ◌≡◌, ◌≢◌, String, ◌⊎◌, inl, inr, none, some, List, [], ◌∷◌, ap, ◌∙◌, arith,
}
use code_mate.Dict.{lookup, insert, keep, lookup-insert, lookup-keep, lookup-insert_self}
use code_mate.Sandbox.ExecutionStore.{Store, ClaimRequest, acquired, is_fresh, claim, complete}
use code_mate.Sandbox.ExecutionStore.Traces.{time_of, Call, claims, completes, step, run, AllAt}

-- A claim purges what has expired, and then records its assertion, if it was not recorded, or
-- leaves the records alone and does not acquire.
claim-replays :
    (now : ℕ) (r : ClaimRequest) (s : Store)
    → ((claim now r s).0.replays ≡ keep (is_fresh now) s.replays)
        × ((claim now r s).1.status ≢ acquired)
      ⊎ ((claim now r s).0.replays
          ≡ insert r.assertion_jti
              (now + r.assertion_ttl, r.execution_id)
              (keep (is_fresh now) s.replays))
        × (lookup r.assertion_jti (keep (is_fresh now) s.replays) ≡ none)
unfolding claim
claim-replays now r s = ground arith

-- The record of an assertion that lasts until a time.
abbrev HasReplay : String → ℕ → Store → Type 0
HasReplay jti until s =
    (entry : ℕ × String) × (lookup jti s.replays ≡ some entry) × (until ≤ entry.0)

step-HasReplay :
    (jti : String) (until : ℕ) (c : Call) (s : Store)
    → time_of c ≤ until
    → HasReplay jti until s
    → HasReplay jti until (step c s)
unfolding complete
step-HasReplay jti until (claims now r) s early (entry, e, h) =
    let kept = lookup-keep (is_fresh now) jti entry s.replays e (ground arith) in
    elim (claim-replays now r s) [
      | inl (same, _) ↦ (entry, ap (lookup jti) same ∙ kept, h)
      | inr (new, absent) ↦ (
        entry,
        ground (
          arith,
          new,
          absent,
          kept,
          eq_iff r.assertion_jti jti,
          lookup-insert r.assertion_jti jti (now + r.assertion_ttl, r.execution_id)
              (keep (is_fresh now) s.replays),
        ),
        h,
      )
    ]
step-HasReplay jti until (completes now r) s early (entry, e, h) = (entry, ground (arith, e), h)

run-HasReplay :
    (jti : String) (until : ℕ) (cs : List Call) (s : Store)
    → AllAt (λ t. t ≤ until) cs
    → HasReplay jti until s
    → HasReplay jti until (run cs s)
run-HasReplay jti until [] s times h = h
run-HasReplay jti until (c ∷ cs) s times h =
    run-HasReplay jti until cs (step c s) times.1 (step-HasReplay jti until c s times.0 h)

-- An assertion acquires once in its lifetime: after a claim that acquires, and any calls made until
-- its assertion expires, no claim with the same assertion, made until then, acquires anything.
pub assertion_used_once :
    (now : ℕ) (r : ClaimRequest) (s : Store) (cs : List Call) (later : ℕ) (q : ClaimRequest)
    → (claim now r s).1.status ≡ acquired
    → AllAt (λ t. t ≤ now + r.assertion_ttl) cs
    → later ≤ now + r.assertion_ttl
    → q.assertion_jti ≡ r.assertion_jti
    → (claim later q (run cs (claim now r s).0)).1.status ≢ acquired
assertion_used_once now r s cs later q got times in_time same again =
    let (entry, e, h) =
      run-HasReplay r.assertion_jti (now + r.assertion_ttl) cs (claim now r s).0 times recorded in
    let kept =
      lookup-keep (is_fresh later) r.assertion_jti entry (run cs (claim now r s).0).replays e
        (ground arith) in
    elim (claim-replays later q (run cs (claim now r s).0)) [
      | inl (_, other) ↦ other again
      | inr (_, absent) ↦ ground (arith, kept, absent)
    ]
  where
    recorded : HasReplay r.assertion_jti (now + r.assertion_ttl) (claim now r s).0
    recorded = elim (claim-replays now r s) [
      | inl (_, other) ↦ absurd (other got)
      | inr (new, _) ↦ (
        (now + r.assertion_ttl, r.execution_id),
        ap (lookup r.assertion_jti) new
            ∙ lookup-insert_self r.assertion_jti (now + r.assertion_ttl, r.execution_id)
                (keep (is_fresh now) s.replays),
        omega arith,
      )
    ]

-- ===== src/Mcp/Quota/ScriptLimits.antt =====
-- What REDIS_RESERVE_SCRIPT accepts is within the limits of every policy.
use text.Mathlib.Text.{◌==◌ as str_eq}
use text.Mathlib.TextPositions.{eq_refl}
use text.Mathlib.TextEquality.{eq_iff}
use code_mate.Mcp.Quota.Atomic.{prune-prune, prune-insert, keys-insert}
use code_mate.Mcp.Quota.Check.{Denial}
use code_mate.Lists.{All-zip, All-map, All, member}
use code_mate.Mcp.Quota.Policy.{Limits}
use code_mate.Dict.{Dict, insert}
use code_mate.Mcp.Quota.Script.{
  accepted, reserve_script, after_checks, return_or, count_loop, keys_of, prune, check_loop,
  count_keys, PolicyKeys, check_keys, Arguments,
}
use code_mate.Mcp.Quota.Counters.{IsBounded, count_keys-IsBounded}
use code_mate.Prelude.{
  true, subst, Bool, sym, some, ap, ◌∙◌, Option, refl, ◌+◌, arith, none, false, [], ◌∷◌, String, ℕ,
  List, ◌≡◌,
}

unfoldable pub script_ids : List (String × Limits) → List String
script_ids [] = []
script_ids ((id, l) ∷ ps) = id ∷ script_ids ps

-- No two policies of the list have one id.
abbrev pub AreDistinctIds : List (String × Limits) → Type 0
AreDistinctIds [] = Unit
AreDistinctIds ((id, l) ∷ ps) = (member id (script_ids ps) ≡ false) × AreDistinctIds ps

ids-differ :
    (id : String) (ps : List (String × Limits))
    → member id (script_ids ps) ≡ false
    → All (λ q. str_eq id q.0 ≡ false) ps
unfolding script_ids member
ids-differ id [] absent = tt
ids-differ id ((j, l) ∷ ps) absent =
    (ground (arith, eq_iff id j, eq_iff j id), ids-differ id ps (ground (arith, absent)))

module _ (ttl : ℕ → ℕ) (a : Arguments) where
  return_or-none :
      (i : ℕ) (x : Option Denial) (d : Dict PolicyKeys)
      (rest : Option (ℕ × Denial) × Dict PolicyKeys)
      → (return_or i x d rest).0 ≡ none
      → (x ≡ none) × (return_or i x d rest ≡ rest)
  return_or-none i (some x) d rest h = ground arith
  return_or-none i none d rest h = (refl, refl)

  if_return :
      (i : ℕ) (x : Option Denial) (pruned : Dict PolicyKeys)
      (rest : Option (ℕ × Denial) × Dict PolicyKeys) (j : String) (d : Dict PolicyKeys)
      → keys_of j pruned ≡ keys_of j d
      → keys_of j rest.1 ≡ keys_of j d
      → keys_of j (return_or i x pruned rest).1 ≡ keys_of j d
  if_return i (some x) pruned rest j d h h' = h
  if_return i none pruned rest j d h h' = h'

  -- The first loop does not change the keys of a policy whose dead members are gone.
  check_loop-stable :
      (i : ℕ) (ps : List (String × Limits)) (d : Dict PolicyKeys) (j : String)
      → prune a.now_ms (keys_of j d) ≡ keys_of j d
      → keys_of j (check_loop ttl i a ps d).1 ≡ keys_of j d
  unfolding check_loop
  check_loop-stable i [] d j stable = refl
  check_loop-stable i ((id, l) ∷ ps) d j stable =
      let k = prune a.now_ms (keys_of id d) in
      let written : keys_of j (insert id k d) ≡ keys_of j d =
        rw (keys-insert id j k d) (ground (arith, eq_iff id j, stable)) in
      if_return i (check_keys ttl a l k) (insert id k d) _ j d written (
        check_loop-stable (i + 1) ps (insert id k d) j
          (ap (prune a.now_ms) written ∙ stable ∙ sym written)
        ∙ written)

  abbrev Passes : Dict PolicyKeys → String × Limits → Type 0
  Passes d (id, l) = check_keys ttl a l (prune a.now_ms (keys_of id d)) ≡ none

  abbrev IsPruned : Dict PolicyKeys → Dict PolicyKeys → String × Limits → Type 0
  IsPruned d after (id, l) = keys_of id after ≡ prune a.now_ms (keys_of id d)

  -- When the first loop ends, every policy has passed its tests and lost its dead members.
  check_loop-Passes :
      (i : ℕ) (ps : List (String × Limits)) (d : Dict PolicyKeys)
      → (check_loop ttl i a ps d).0 ≡ none
      → All (Passes d) ps × All (IsPruned d (check_loop ttl i a ps d).1) ps
  unfolding check_loop
  check_loop-Passes i [] d h = (tt, tt)
  check_loop-Passes i ((id, l) ∷ ps) d h =
      let k = prune a.now_ms (keys_of id d) in
      let d' = insert id k d in
      let rest = check_loop ttl (i + 1) a ps d' in
      let (passes, same) = return_or-none i (check_keys ttl a l k) d' rest h in
      let (all_pass, all_pruned) = check_loop-Passes (i + 1) ps d' (ap (λ x. x.0) (sym same) ∙ h) in
      let head : keys_of id d' ≡ k = rw (keys-insert id id k d) (ground (arith, eq_refl id)) in
      (
        (
          passes,
          All-map (Passes d') (Passes d) ps
              (λ q p. ap (check_keys ttl a q.1) (sym (prune-insert a.now_ms id q.0 d)) ∙ p)
              all_pass,
        ),
        (
          ap (λ x. keys_of id x.1) same
              ∙ check_loop-stable (i + 1) ps d' id
                  (ap (prune a.now_ms) head ∙ prune-prune a.now_ms (keys_of id d) ∙ sym head)
              ∙ head,
          All-map (IsPruned d' rest.1) (IsPruned d (check_loop ttl i a ((id, l) ∷ ps) d).1) ps
              (λ q p. ap (λ x. keys_of q.0 x.1) same ∙ p ∙ prune-insert a.now_ms id q.0 d)
              all_pruned,
        ),
      )

  count_loop-other :
      (ps : List (String × Limits)) (d : Dict PolicyKeys) (j : String)
      → member j (script_ids ps) ≡ false
      → keys_of j (count_loop a ps d) ≡ keys_of j d
  unfolding count_loop script_ids member
  count_loop-other [] d j absent = refl
  count_loop-other ((id, l) ∷ ps) d j absent =
      let k = count_keys a (keys_of id d) in
      count_loop-other ps (insert id k d) j (ground arith)
      ∙ rw (keys-insert id j k d) (ground arith)

  -- The second loop counts the call once for each policy.
  count_loop-counts :
      (ps : List (String × Limits)) (d : Dict PolicyKeys)
      → AreDistinctIds ps
      → All (λ q. keys_of q.0 (count_loop a ps d) ≡ count_keys a (keys_of q.0 d)) ps
  unfolding count_loop
  count_loop-counts [] d distinct = tt
  count_loop-counts ((id, l) ∷ ps) d (absent, distinct) =
      let k = count_keys a (keys_of id d) in
      (
        count_loop-other ps (insert id k d) id absent
            ∙ rw (keys-insert id id k d) (ground (arith, eq_refl id)),
        All-map _ (λ q. keys_of q.0 (count_loop a ((id, l) ∷ ps) d) ≡ count_keys a (keys_of q.0 d))
            ps (λ q p. p.0 ∙ ap (count_keys a) (rw (keys-insert id q.0 k d) (ground (arith, p.1))))
            (All-zip _ _ ps (count_loop-counts ps (insert id k d) distinct)
              (ids-differ id ps absent)),
      )

  after_checks-IsBounded :
      (ps : List (String × Limits)) (d : Dict PolicyKeys)
      (checked : Option (ℕ × Denial) × Dict PolicyKeys)
      → AreDistinctIds ps
      → (after_checks a ps checked).0 ≡ accepted
      → (checked.0 ≡ none → All (Passes d) ps × All (IsPruned d checked.1) ps)
      → All
          (λ q.
            IsBounded a q.1
              (prune a.now_ms (keys_of q.0 d))
              (keys_of q.0 (after_checks a ps checked).1))
          ps
  after_checks-IsBounded ps d (some (i, x), d') distinct is_accepted passed = ground arith
  after_checks-IsBounded ps d (none, d') distinct is_accepted passed =
      let (passes, pruned) = passed refl in
      All-map _ _ ps
        (λ q p.
          subst (IsBounded a q.1 (prune a.now_ms (keys_of q.0 d)))
            (ap (count_keys a) (sym p.0.1) ∙ sym p.1)
            (count_keys-IsBounded ttl a q.1 (prune a.now_ms (keys_of q.0 d)) p.0.0))
        (All-zip _ _ ps (All-zip (Passes d) (IsPruned d d') ps passes pruned)
          (count_loop-counts ps d' distinct))

  -- When the script accepts a call, then for every policy for which it is not counted yet (the call
  -- does not say that it is, and its key has no mark), the calls of the minute, the calls and the cost
  -- of the day and the calls of the run have grown by exactly this call and are within the limits, and
  -- its key is marked; for the other policies no counter has changed. It has its lease with every
  -- policy, and where it had none the leases are one more and within the limit, members whose time
  -- is over aside. The policies have distinct ids.
  pub script-IsBounded :
      (is_reconciling : Bool) (ps : List (String × Limits)) (d : Dict PolicyKeys)
      → AreDistinctIds ps
      → (reserve_script ttl is_reconciling a ps d).0 ≡ accepted
      → All
          (λ q.
            IsBounded a q.1
              (prune a.now_ms (keys_of q.0 d))
              (keys_of q.0 (reserve_script ttl is_reconciling a ps d).1))
          ps
  unfolding reserve_script
  script-IsBounded true ps d distinct is_accepted = ground arith
  script-IsBounded false ps d distinct is_accepted =
      after_checks-IsBounded ps d (check_loop ttl 1 a ps d) distinct is_accepted
        (check_loop-Passes 1 ps d)

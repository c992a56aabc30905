-- ===== src/Mcp/Quota/Atomic.antt =====
-- REDIS_RESERVE_SCRIPT takes all of a call or nothing, and takes none beyond a limit.
use text.Mathlib.TextEquality.{eq_iff}
use text.Mathlib.Text.{◌==◌ as str_eq}
use code_mate.Mcp.Quota.Check.{Denial}
use code_mate.Mcp.Quota.Policy.{Limits}
use code_mate.Dict.{lookup-insert, insert, keep-keep, Dict}
use code_mate.Mcp.Quota.Script.{
  return_or, check_keys, refused, after_checks, reserve_script, check_loop, keys_of, Arguments,
  PolicyKeys, prune,
}
use code_mate.Prelude.{
  ◌∙◌, ◌+◌, [], refl, ◌∷◌, false, none, true, some, arith, if◌then◌else◌, Bool, ltb, Option, List,
  ℕ, String, ◌≡◌,
}

pub prune-prune : (now_ms : ℕ) (k : PolicyKeys) → prune now_ms (prune now_ms k) ≡ prune now_ms k
unfolding prune
prune-prune now_ms k = rw (keep-keep (ltb now_ms) k.concurrency) refl

-- The keys of one policy after those of another have been written.
pub keys-insert :
    (id j : String) (k : PolicyKeys) (d : Dict PolicyKeys)
    → keys_of j (insert id k d) ≡ (if str_eq id j then k else keys_of j d)
keys-insert id j k d = rw (lookup-insert id j k d) (ground arith)

pub prune-insert :
    (now_ms : ℕ) (id j : String) (d : Dict PolicyKeys)
    → prune now_ms (keys_of j (insert id (prune now_ms (keys_of id d)) d))
      ≡ prune now_ms (keys_of j d)
prune-insert now_ms id j d =
    rw (keys-insert id j (prune now_ms (keys_of id d)) d)
      (ground (arith, eq_iff id j, prune-prune now_ms (keys_of j d)))

module _ (ttl : ℕ → ℕ) (a : Arguments) where
  prune-return_or :
      (i : ℕ) (j : String) (d : Dict PolicyKeys) (x : Option Denial) (pruned : Dict PolicyKeys)
      (rest : Option (ℕ × Denial) × Dict PolicyKeys)
      → prune a.now_ms (keys_of j pruned) ≡ prune a.now_ms (keys_of j d)
      → prune a.now_ms (keys_of j rest.1) ≡ prune a.now_ms (keys_of j d)
      → prune a.now_ms (keys_of j (return_or i x pruned rest).1) ≡ prune a.now_ms (keys_of j d)
  prune-return_or i j d (some x) pruned rest h h' = h
  prune-return_or i j d none pruned rest h h' = h'

  -- What the first loop writes is not seen once the members whose time is over are gone.
  prune-check_loop :
      (i : ℕ) (ps : List (String × Limits)) (d : Dict PolicyKeys) (j : String)
      → prune a.now_ms (keys_of j (check_loop ttl i a ps d).1) ≡ prune a.now_ms (keys_of j d)
  unfolding check_loop
  prune-check_loop i [] d j = refl
  prune-check_loop i ((id, l) ∷ ps) d j =
      let k = prune a.now_ms (keys_of id d) in
      prune-return_or i j d (check_keys ttl a l k) (insert id k d) _ (prune-insert a.now_ms id j d)
        (prune-check_loop (i + 1) ps (insert id k d) j ∙ prune-insert a.now_ms id j d)

  after_checks-same :
      (ps : List (String × Limits)) (d : Dict PolicyKeys) (j : String)
      (checked : Option (ℕ × Denial) × Dict PolicyKeys) {i : ℕ} {x : Denial}
      → (after_checks a ps checked).0 ≡ refused i x
      → prune a.now_ms (keys_of j checked.1) ≡ prune a.now_ms (keys_of j d)
      → prune a.now_ms (keys_of j (after_checks a ps checked).1) ≡ prune a.now_ms (keys_of j d)
  after_checks-same ps d j (some y, d') is_refused same = same
  after_checks-same ps d j (none, d') is_refused same = ground arith

  -- A call that the script refuses changes nothing for any policy: every counter, every mark of a
  -- key and every member of a set of leases is as before, but for members whose time is over.
  pub refused_changes_nothing :
      (is_reconciling : Bool) (ps : List (String × Limits)) (d : Dict PolicyKeys) (i : ℕ)
      (x : Denial)
      → (reserve_script ttl is_reconciling a ps d).0 ≡ refused i x
      → (j : String)
      → prune a.now_ms (keys_of j (reserve_script ttl is_reconciling a ps d).1)
        ≡ prune a.now_ms (keys_of j d)
  unfolding reserve_script
  refused_changes_nothing true ps d i x is_refused j = refl
  refused_changes_nothing false ps d i x is_refused j =
      after_checks-same ps d j (check_loop ttl 1 a ps d) is_refused (prune-check_loop 1 ps d j)

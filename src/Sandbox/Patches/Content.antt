-- ===== src/Sandbox/Patches/Content.antt =====
-- The repair of a patch leaves its content alone.
use code_mate.Prelude.{
  subst, ℕ, zero, suc, ◌≤◌, ◌≡◌, refl, String, Bool, true, false, List, [], ◌∷◌, arith,
}
use code_mate.Lists.{length}
use code_mate.Sandbox.Patches.Normalize.{
  prepend, Step, appends, stops, Outcome, normalized, failed, out_of_fuel, step, after_step,
  normalize, normalize_unified_diff_hunks,
}
use code_mate.Sandbox.Patches.Lines.{
  changes, same_but_headers, changes-append, same-append, Extends, IsFaithful, step-IsFaithful,
}

module _ (is_digit : String → Bool) (int : String → ℕ) (text : ℕ → String) where
  -- What a normalised patch has to do with the lines it came from.
  abbrev IsFrom : List String → Outcome → Type 0
  IsFrom lines (normalized out n) = (changes lines out ≤ n) × (same_but_headers lines out ≡ true)
  IsFrom lines outcome = Unit

  prepend-IsFrom :
      {line : String} {lines out rest : List String} {n : ℕ} (o : Outcome)
      → Extends is_digit int text line lines out n rest
      → IsFrom rest o
      → IsFrom (line ∷ lines) (prepend out n o)
  unfolding changes same_but_headers
  prepend-IsFrom {line} {lines} {out} {rest} {n} (normalized after m) e (few, same) =
      rw (e.appended, e.consumed)
        (
          ground (arith, few, e.counts, changes-append e.body rest after),
          ground (arith, same, e.header, same-append e.body rest after),
        )
  prepend-IsFrom (failed error) e from = tt
  prepend-IsFrom out_of_fuel e from = tt

  after_step-IsFrom :
      (fuel : ℕ) (line : String) (lines : List String) (s : Step)
      → IsFaithful is_digit int text line lines s
      → ((saw : Bool) (rest : List String)
          → IsFrom rest (normalize is_digit int text fuel saw rest))
      → IsFrom (line ∷ lines) (after_step (normalize is_digit int text fuel) s)
  unfolding after_step
  after_step-IsFrom fuel line lines (stops e) faithful later = tt
  after_step-IsFrom fuel line lines (appends out n saw rest) faithful later =
      prepend-IsFrom _ faithful (later saw rest)

  normalize-IsFrom :
      (fuel : ℕ) (saw : Bool) (lines : List String)
      → IsFrom lines (normalize is_digit int text fuel saw lines)
  unfolding normalize changes same_but_headers length
  normalize-IsFrom zero saw [] = (omega arith, refl)
  normalize-IsFrom (suc fuel) saw [] = (omega arith, refl)
  normalize-IsFrom zero saw (line ∷ lines) = tt
  normalize-IsFrom (suc fuel) saw (line ∷ lines) =
      after_step-IsFrom fuel line lines (step is_digit int text saw line lines)
        (step-IsFaithful is_digit int text saw line lines) (normalize-IsFrom fuel)

  -- The repair of a patch never changes its content: when it normalises a patch, at most as many lines
  -- have changed as hunks were repaired, none if none was, and every line that is no header of a hunk
  -- is what it was.
  pub normalize_keeps_content :
      (split : String → List String) (diff : String) {out : List String} {repaired : ℕ}
      → normalize_unified_diff_hunks is_digit int text split diff ≡ normalized out repaired
      → (changes (split diff) out ≤ repaired) × (same_but_headers (split diff) out ≡ true)
  unfolding normalize_unified_diff_hunks
  normalize_keeps_content split diff is =
      subst (IsFrom (split diff)) is (normalize-IsFrom (length (split diff)) false (split diff))

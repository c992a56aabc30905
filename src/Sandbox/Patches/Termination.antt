-- ===== src/Sandbox/Patches/Termination.antt =====
-- The repair of a patch ends.
use code_mate.Prelude.{ℕ, String, Bool}
use code_mate.Sandbox.Patches.Normalize.{Outcome, out_of_fuel}

module _ (is_digit : String → Bool) (int : String → ℕ) (text : ℕ → String) where
  -- The outcome is not that the fuel has run out.
  abbrev Ends : Outcome → Type 0
  Ends out_of_fuel = ⊥
  Ends outcome = Unit

-- ===== src/Mcp/Quota/Steps.antt =====
-- Any interleaving of `reserve` and `release`, by any callers, while operators change the policies;
-- and what one call can do to the tables.
use code_mate.Mcp.Quota.Reserve.{reserve}
use code_mate.Mcp.Quota.Policy.{Membership, Policy}
use code_mate.Mcp.Quota.Booking.{Reservation, World, Call}
use code_mate.Mcp.Quota.Release.{release}
use code_mate.Mcp.Quota.RedisReserve.{Outside, Settings}
use code_mate.Prelude.{[], ◌∷◌, String, Bool, List, ℕ}

-- A call of `reserve` finds the policies and memberships as they are by then.
pub data Step : Type 0 where
  reserves : List Policy → List Membership → Call → Step
  releases : Bool → ℕ → String → Reservation → Step

module _ (c : Settings) (o : Outside) where
  unfoldable pub step : Step → World → World
  unfolding reserve release
  step (reserves policies members call) w = (reserve c o policies members call w).1
  step (releases answers now outcome r) w = release c answers now outcome r w

  abbrev pub run : List Step → World → World
  run [] w = w
  run (s ∷ ss) w = run ss (step s w)

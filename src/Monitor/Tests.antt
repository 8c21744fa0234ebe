-- ===== src/Monitor/Tests.antt =====
-- The monitor's theorems at concrete histories.
use vellar_facilitator.Base.{◌≡◌, refl, true, List, [], ◌∷◌, arith}
use vellar_facilitator.Base.KeySet.{has}
use vellar_facilitator.Pool.{ChannelPool}
use vellar_facilitator.Monitor.{
  Event, balance, not_finite, rejected, checks, acquires, releases, create, run,
}
use vellar_facilitator.Monitor.Failures.{unreachable_withdrawn}

abbrev pool : ChannelPool
pool = record { available = "GA" ∷ "GB" ∷ []; in_use = []; disabled = [] }

abbrev history : List Event
history =
    checks "GA" (balance 3)
    ∷ acquires
    ∷ checks "GB" rejected
    ∷ checks "GA" (balance 90)
    ∷ releases "GA"
    ∷ []

abbrev outage : List Event
outage = checks "GA" rejected ∷ checks "GB" not_finite ∷ checks "GA" rejected ∷ []

abbrev five : List Event
five =
    checks "GA" rejected
    ∷ checks "GA" not_finite
    ∷ checks "GA" rejected
    ∷ checks "GA" rejected
    ∷ checks "GA" rejected
    ∷ []

unreachable_withdrawn_example : has "GA" (run 50 (create pool) five).pool.disabled ≡ true
unreachable_withdrawn_example = unreachable_withdrawn 50 pool five "GA" refl (omega arith)

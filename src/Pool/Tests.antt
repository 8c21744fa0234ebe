-- ===== src/Pool/Tests.antt =====
-- The pool's theorems at concrete pools, and runs of its calls.
use vellar_facilitator.Base.{◌≡◌, ◌≢◌, refl, String, none, some, List, [], ◌∷◌, arith, eq_iff}
use vellar_facilitator.Base.KeySet
use vellar_facilitator.Base.KeySet.{count}
use vellar_facilitator.Pool.{
  ChannelPool, Call, acquires, releases, disables, enables, create, acquire, release, step, run,
}
use vellar_facilitator.Pool.Partition.{states, run-create-states}
use vellar_facilitator.Pool.Lease.{acquire_exclusive}

abbrev two : List String
two = "GA" ∷ "GB" ∷ []

abbrev busy : List Call
busy = acquires ∷ disables "GB" ∷ releases "GC" ∷ enables "GB" ∷ []

run-create-states_example : states "GB" (run (create two) busy) ≡ 1
unfolding create KeySet.add_all KeySet.has count
run-create-states_example = run-create-states two busy (tt, (refl, (tt, (tt, tt)))) "GB"

abbrev lent : ChannelPool
lent = record { available = "GB" ∷ []; in_use = "GA" ∷ []; disabled = [] }

two-acquire : acquire (create two) ≡ some ("GA", lent)
unfolding acquire create KeySet.add_all KeySet.has KeySet.delete
two-acquire = refl

-- The second settlement gets the other address; `GA` stays out until it is released.
abbrev later : ChannelPool
later = record { available = []; in_use = "GA" ∷ "GB" ∷ []; disabled = [] }

lent-acquire : acquire (run lent (releases "GX" ∷ [])) ≡ some ("GB", later)
unfolding acquire run step release KeySet.has KeySet.add KeySet.delete
lent-acquire = refl

acquire_exclusive_example : ◌≢◌ {A = String} "GB" "GA"
acquire_exclusive_example =
    acquire_exclusive (create two) lent later "GA" "GB" (releases "GX" ∷ []) two-acquire
      (((λ e. ground (arith, eq_iff "GX" "GA")), (λ e. cc)), tt) lent-acquire

abbrev rest : ChannelPool
rest = record { available = []; in_use = "GB" ∷ []; disabled = "GA" ∷ [] }

-- A refused call: the pool is empty.
exhausted : acquire later ≡ none
unfolding acquire
exhausted = refl

abbrev rotated : ChannelPool
rotated = record { available = "GA" ∷ []; in_use = "GB" ∷ []; disabled = [] }

round_trip : run (create two) (acquires ∷ releases "GA" ∷ acquires ∷ []) ≡ rotated
unfolding create run step acquire release KeySet.add_all KeySet.has KeySet.add KeySet.delete
round_trip = refl

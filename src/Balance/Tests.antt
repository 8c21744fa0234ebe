-- ===== src/Balance/Tests.antt =====
-- The guard of src/balance.ts at concrete answers.
use vellar_facilitator.Base.{ℕ, ◌<◌, ◌≡◌, refl, ◌↔◌, true, false, none, some, [], ◌∷◌}
use vellar_facilitator.Balance.{
  threw, balance, create, settle_allowed, status_of, starts, refreshed, step, run,
}
use vellar_facilitator.Balance.Critical.{last_fetched, settle_allowed-eq-false_iff}

-- A check that fails after a critical one lets settles through.
lost_sight :
    settle_allowed
      (run (record { soft = 20; hard = 10 }) (refreshed (balance 5) ∷ refreshed threw ∷ []) create)
    ≡ true
unfolding settle_allowed run step status_of
lost_sight = refl

settle_allowed-eq-false_iff_example :
    (settle_allowed
        (run (record { soft = 20; hard = 10 }) (starts ∷ refreshed (balance 5) ∷ []) create)
      ≡ false)
    ↔ ((n : ℕ) × (last_fetched none (starts ∷ refreshed (balance 5) ∷ []) ≡ some (balance n))
        × (n < 10))
settle_allowed-eq-false_iff_example =
    settle_allowed-eq-false_iff (record { soft = 20; hard = 10 })
      (starts ∷ refreshed (balance 5) ∷ [])

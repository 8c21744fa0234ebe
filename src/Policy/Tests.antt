-- ===== src/Policy/Tests.antt =====
-- The policy's theorems at concrete settles and histories.
use vellar_facilitator.Base.{◌≤◌, ◌≡◌, refl, true, false, some, List, [], ◌∷◌, arith}
use vellar_facilitator.Policy.{
  SpendPolicy, SpendPolicyConfig, SettleIdentity, pubnet, opened, create, check_settle,
  decide_settle, evaluate, sum_stroops, max_time,
}
use vellar_facilitator.Policy.Spend.{live_spend}
use vellar_facilitator.Policy.Adjust.{reserved_stroops, find_entry}
use vellar_facilitator.Policy.History.{Op, settles, refunds, adjusts, step, run, run_within_ceiling}
use vellar_facilitator.Policy.Limits.{pay_to_used, budget_used, budget_max, allowed_within_limits}

-- Room for two settles of 40 stroops in a window, and for one of a payTo.
abbrev cfg : SpendPolicyConfig
cfg = record {
  network = pubnet;
  rate_window_ms = 60;
  spend_ceiling_stroops = 100;
  spend_window_ms = 60;
  per_settle_estimate_stroops = 40;
  per_url_max = 1;
  per_pay_to_max = 2;
  unbound_pool_max = 2;
}

abbrev fresh : SpendPolicy
fresh = create cfg true

abbrev shop : SettleIdentity
shop = record { resource_url = "https://a.example/x"; pay_to = "GA"; bound = true }

abbrev stall : SettleIdentity
stall = record { resource_url = "https://b.example/y"; pay_to = "GB"; bound = false }

abbrev booked : SpendPolicy
booked = (check_settle shop 1000 fresh).1

allowed : (check_settle shop 1000 fresh).0.allowed ≡ true
unfolding check_settle decide_settle evaluate create sum_stroops
allowed = refl

abbrev history : List Op
history =
    settles shop 1000
    ∷ adjusts (some 1) 25 opened
    ∷ settles stall 1010
    ∷ refunds (some 2)
    ∷ settles stall 1020
    ∷ []

run_within_ceiling_example : live_spend 1020 (run fresh history) ≤ 100
unfolding create step check_settle decide_settle evaluate sum_stroops max_time reserved_stroops
    find_entry
run_within_ceiling_example =
    run_within_ceiling 0 fresh history refl (omega arith)
      (omega arith, (omega arith, (omega arith, (omega arith, tt))))

allowed_within_limits_example :
    (pay_to_used shop 1000 booked ≤ 2) × (budget_used shop 1000 booked ≤ budget_max shop cfg)
unfolding create
allowed_within_limits_example =
    allowed_within_limits shop 1000 fresh refl (record { pay_tos = tt; urls = tt }) allowed

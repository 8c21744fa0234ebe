-- ===== src/Policy/Settings.antt =====
-- src/policy.ts: createSpendPolicy and its defaults.
use vellar_facilitator.Base.{ℕ, Bool, Option, none, some}
use vellar_facilitator.Policy.{SpendPolicy, Network, create}

-- createSpendPolicy(): the defaults of the configuration.
pub record SpendPolicyInput : Type 0 where
  pub network : Network
  pub rate_window_ms : Option ℕ
  pub spend_ceiling_stroops : Option ℕ
  pub spend_window_ms : Option ℕ
  pub per_settle_estimate_stroops : ℕ
  pub per_url_max : Option ℕ
  pub per_pay_to_max : Option ℕ
  pub unbound_pool_max : Option ℕ
  pub has_store : Bool

abbrev or_default : Option ℕ → ℕ → ℕ
or_default none d = d
or_default (some n) d = n

pub create_spend_policy : SpendPolicyInput → SpendPolicy
unfolding create
create_spend_policy input =
    create
      (record {
        network = input.network;
        rate_window_ms = or_default input.rate_window_ms 60_000;
        spend_ceiling_stroops = or_default input.spend_ceiling_stroops 50_000_000;
        spend_window_ms = or_default input.spend_window_ms 60_000;
        per_settle_estimate_stroops = input.per_settle_estimate_stroops;
        per_url_max = or_default input.per_url_max 10;
        per_pay_to_max = or_default input.per_pay_to_max 50;
        unbound_pool_max = or_default input.unbound_pool_max 10;
      })
      input.has_store

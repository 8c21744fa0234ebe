-- ===== src/Settle/Tests.antt =====
-- The theorems on src/server.ts's POST /settle at concrete requests, and runs of it.
use vellar_facilitator.Retry.Laws.{IsLastOf}
use vellar_facilitator.Settle.Retries.{reason_of, attempt_settle-IsLastOf}
use vellar_facilitator.Settle.{register_bond}
use vellar_facilitator.Settle.{respond}
use vellar_facilitator.Base.KeySet.{add_all}
use vellar_facilitator.Settle.{capture}
use vellar_facilitator.Settle.{perform}
use vellar_facilitator.Base.{
  ℕ, zero, suc, ◌≡◌, refl, ap, subst, inr, true, false, Option, none, some, [], ◌∷◌, arith,
}
use vellar_facilitator.Pool
use vellar_facilitator.Pool.{ChannelPool}
use vellar_facilitator.Pool.Partition.{create-IsExclusive}
use vellar_facilitator.Policy
use vellar_facilitator.Policy.{SpendPolicy, SettleIdentity, pubnet}
use vellar_facilitator.Settle.{
  Result, Attempt, rejected, refused, answered, Request, Deployment, Shared, pool_exhausted,
  attempt_settle, give_back, run_settle_pipeline, admit_settle,
}
use vellar_facilitator.Policy.Refund.{IsFresh}
use vellar_facilitator.Settle.Money.{spend_of, run_settle_pipeline-free}
use vellar_facilitator.Settle.Slots.{SameSets, attempt_settle-SameSets}
use vellar_facilitator.Settle.Success.{HasStanding, run_settle_pipeline-HasStanding}
use vellar_facilitator.Settle.Duplicates.{admit_all, admit_settle-once}

abbrev get_or : SpendPolicy → Option SpendPolicy → SpendPolicy
get_or p none = p
get_or p (some q) = q

abbrev two_accounts : ChannelPool
two_accounts = Pool.create ("GA" ∷ "GB" ∷ [])

abbrev budget : SpendPolicy
budget =
    Policy.create
      (record {
        network = pubnet;
        rate_window_ms = 60;
        spend_ceiling_stroops = 100;
        spend_window_ms = 60;
        per_settle_estimate_stroops = 40;
        per_url_max = 1;
        per_pay_to_max = 2;
        unbound_pool_max = 2;
      })
      true

abbrev order : Request
order = record {
  has_body = true;
  is_parseable = true;
  identity = record { resource_url = "https://a.example/x"; pay_to = "GSHOP"; bound = true };
  seller = some "GSHOP";
}

abbrev deployment : Deployment
deployment = record {
  is_paused = false;
  settle_allowed = true;
  has_bond_escrow = true;
  registration = rejected (some 3);
}

abbrev settled : Result
settled = record {
  success = true;
  transaction = "hash";
  error_reason = none;
  payer = some "GPAYER";
  has_rpc_status = true;
  submitted_fee = some 30;
}

abbrev refused_early : Result
refused_early = record {
  success = false;
  transaction = "";
  error_reason = some "invalid_exact_stellar_payload";
  payer = none;
  has_rpc_status = false;
  submitted_fee = none;
}

abbrev settles : ℕ → Attempt
settles _ = record { selects_signer = true; result = some settled }

abbrev fails : ℕ → Attempt
fails _ = record { selects_signer = true; result = some refused_early }

abbrev throws : ℕ → Attempt
throws _ = record { selects_signer = true; result = none }

abbrev start : Shared
start = record { pool = two_accounts; policy = some budget }

abbrev empty_pool : Shared
empty_pool = record { pool = Pool.create []; policy = some budget }

answers : (run_settle_pipeline deployment 2 settles order 1000 start).1 ≡ answered settled
unfolding run_settle_pipeline Policy.check_settle Policy.decide_settle Policy.evaluate Policy.create
    Policy.sum_stroops perform attempt_settle capture Pool.acquire Pool.create add_all respond
    register_bond
answers = refl

run_settle_pipeline-HasStanding_example : HasStanding (rejected (some 3))
run_settle_pipeline-HasStanding_example =
    (run_settle_pipeline-HasStanding deployment 2 settles order 1000 start settled answers refl).1
      refl

attempt_settle-SameSets_example : SameSets two_accounts (
    give_back
      (attempt_settle 2 settles two_accounts).1.acquired_address
      (attempt_settle 2 settles two_accounts).0)
attempt_settle-SameSets_example =
    attempt_settle-SameSets 2 settles two_accounts (create-IsExclusive ("GA" ∷ "GB" ∷ []))
      (λ n. inr (settled, refl, refl))

new_budget : (p : SpendPolicy) → start.policy ≡ some p → IsFresh p
unfolding Policy.create
new_budget p e = subst IsFresh (ap (get_or budget) e) tt

run_settle_pipeline-free_example :
    spend_of 1010 (run_settle_pipeline deployment 2 fails order 1000 start).0.policy
    ≡ spend_of 1010 start.policy
unfolding attempt_settle capture Pool.acquire Pool.create add_all
run_settle_pipeline-free_example =
    run_settle_pipeline-free deployment 2 fails order 1000 1010 start new_budget (omega arith)
      (refl, refl)

admit_settle-once_example :
    (admit_settle 2000
      (some "hash")
      (admit_all ((1500, some "other") ∷ []) (admit_settle 1000 (some "hash") []).0)).1
    ≡ false
unfolding admit_settle
admit_settle-once_example =
    admit_settle-once "hash" 1000 2000 ((1500, some "other") ∷ []) [] refl (omega arith, tt)
      (omega arith)

-- A settle that is refused because the pool is exhausted keeps its reservation of 40 stroops.
exhausted_charges :
    ((run_settle_pipeline deployment 2 settles order 1000 empty_pool).1
      ≡ refused 503 pool_exhausted)
    × (spend_of 1010 (run_settle_pipeline deployment 2 settles order 1000 empty_pool).0.policy ≡ 40)
unfolding run_settle_pipeline Policy.check_settle Policy.decide_settle Policy.evaluate Policy.create
    Policy.sum_stroops perform attempt_settle capture Pool.acquire Pool.create add_all
exhausted_charges = (refl, refl)

-- An exception after selectSigner leaves its channel account in use.
exception_leaks :
    (run_settle_pipeline deployment 2 throws order 1000 start).0.pool.in_use ≡ "GA" ∷ []
unfolding run_settle_pipeline Policy.check_settle Policy.decide_settle Policy.evaluate Policy.create
    Policy.sum_stroops perform attempt_settle capture Pool.acquire Pool.create add_all
exception_leaks = refl

abbrev skewed : Result
skewed = record refused_early {
  error_reason = some "invalid_exact_stellar_signature_expiration_too_far";
}

-- The first call is rejected for ledger skew, the later ones settle.
abbrev skews_once : ℕ → Attempt
skews_once zero = record { selects_signer = false; result = some skewed }
skews_once (suc n) = settles n

attempt_settle-IsLastOf_example :
    (calls : ℕ) × IsLastOf
      (λ n. (skews_once n).result)
      reason_of
      2
      (attempt_settle 2 skews_once two_accounts).1.result
      calls
attempt_settle-IsLastOf_example = attempt_settle-IsLastOf skews_once 2 two_accounts

-- ===== src/Policy.antt =====
-- src/policy.ts: SpendPolicy, the rate and spend limits that /settle consults. Times are whole
-- milliseconds and amounts whole stroops; `t > cutoff` with `cutoff = now - window` is written
-- `now < t + window`, which is the same test and needs no negative number.
pub mod Spend
pub mod Ceiling
pub mod Adjust
pub mod History
pub mod Refund
pub mod Limits
mod Tests
pub mod Settings
use vellar_facilitator.Base.{
  ℕ, suc, ◌+◌, ◌*◌, ◌-◌, String, Bool, true, false, not, ◌&&◌, ◌||◌, Option, none, some, List, [],
  ◌∷◌, ◌++◌, ltb, leb, ◌==◌, str_eq, if◌then◌else◌, length, filter,
}
use vellar_facilitator.Base.Dict

pub data Network : Type 0 where
  testnet pubnet : Network

pub data SettleRejectReason : Type 0 where
  rate_limited_payto spend_ceiling rate_limited_url unbound_pool_exhausted : SettleRejectReason

pub record SettleIdentity : Type 0 where
  pub resource_url : String
  pub pay_to : String
  pub bound : Bool

-- checkSettle given a bare payTo.
pub identity_of_pay_to : String → SettleIdentity
identity_of_pay_to pay_to = record { resource_url = ""; pay_to = pay_to; bound = false }

pub record SpendPolicyConfig : Type 0 where
  pub network : Network
  pub rate_window_ms : ℕ
  pub spend_ceiling_stroops : ℕ
  pub spend_window_ms : ℕ
  pub per_settle_estimate_stroops : ℕ
  pub per_url_max : ℕ
  pub per_pay_to_max : ℕ
  pub unbound_pool_max : ℕ

pub record SettleVerdict : Type 0 where
  pub allowed : Bool
  pub reason : Option SettleRejectReason
  pub would_reject : Option SettleRejectReason
  pub reservation : Option ℕ

-- DB_CLEANUP_INTERVAL_MS.
abbrev pub db_cleanup_interval_ms : ℕ
db_cleanup_interval_ms = 10 * 60_000

pub data Status : Type 0 where
  opened reconciled unreconcilable : Status

-- The row type of the store, and an entry of `globalSpend`.
pub record StoredSpendReservation : Type 0 where
  pub id : ℕ
  pub at : ℕ
  pub stroops : ℕ
  pub status : Status

pub record Entry : Type 0 where
  pub at : ℕ
  pub stroops : ℕ
  pub id : ℕ

-- A call of the store. `delete_elapsed now window` deletes up to the cutoff `now - window`.
pub data StoreCall : Type 0 where
  save : StoredSpendReservation → StoreCall
  delete_elapsed : ℕ → ℕ → StoreCall

-- `has_store` says whether a store was given; `calls` are the calls made of it, latest first.
pub record SpendPolicy : Type 0 where
  pub cfg : SpendPolicyConfig
  pub has_store : Bool
  pub per_pay_to : List (String × List ℕ)
  pub per_url : List (String × List ℕ)
  pub unbound_pool : List ℕ
  pub global_spend : List Entry
  pub next_reservation_id : ℕ
  pub last_db_cleanup_at : ℕ
  pub spend_unreconcilable_total : ℕ
  pub calls : List StoreCall

unfoldable pub create : SpendPolicyConfig → Bool → SpendPolicy
create cfg has_store = record {
  cfg = cfg;
  has_store = has_store;
  per_pay_to = [];
  per_url = [];
  unbound_pool = [];
  global_spend = [];
  next_reservation_id = 1;
  last_db_cleanup_at = 0;
  spend_unreconcilable_total = 0;
  calls = [];
}

-- `prune(times, now - window)`.
abbrev pub prune : ℕ → ℕ → List ℕ → List ℕ
prune now window times = filter (λ t. ltb now (t + window)) times

-- `e.at > t - spendWindowMs`.
abbrev pub live : ℕ → ℕ → Entry → Bool
live now window e = ltb now (e.at + window)

unfoldable pub sum_stroops : List Entry → ℕ
sum_stroops [] = 0
sum_stroops (e ∷ es) = e.stroops + sum_stroops es

pub call : StoreCall → SpendPolicy → SpendPolicy
call c p = if p.has_store then record p { calls = c ∷ p.calls } else p

-- boot(), on the rows that `loadOpenSpendReservations` returned.
boot_rows : List StoredSpendReservation → SpendPolicy → SpendPolicy
boot_rows [] p = p
boot_rows (r ∷ rows) p =
    let next = p.next_reservation_id in
    boot_rows rows (record p {
      global_spend = p.global_spend ++ record { at = r.at; stroops = r.stroops; id = r.id } ∷ [];
      next_reservation_id = if leb next r.id then suc r.id else next;
    })

pub boot : ℕ → List StoredSpendReservation → SpendPolicy → SpendPolicy
unfolding boot_rows call
boot now rows p =
    if not p.has_store
    then p
    else call (delete_elapsed now p.cfg.spend_window_ms) (boot_rows rows p)

pub enforced : SpendPolicy → Bool
enforced p = elim p.cfg.network [ pubnet ↦ true | testnet ↦ false ]

-- The condition under which a settle has a budget of its own.
abbrev pub has_url_budget : SettleIdentity → Bool
has_url_budget id = id.bound && not (str_eq id.resource_url "")

-- The end of evaluate(): `globalSpend` is pruned, and the global ceiling tested.
evaluate_spend : ℕ → SpendPolicy → Option SettleRejectReason × SpendPolicy
evaluate_spend t p =
    let recent = filter (live t p.cfg.spend_window_ms) p.global_spend in
    let over =
      ltb p.cfg.spend_ceiling_stroops (sum_stroops recent + p.cfg.per_settle_estimate_stroops) in
    ((if over then some spend_ceiling else none), record p { global_spend = recent })

-- evaluate(): the limit that a settle would cross, and the policy after the pruning.
unfoldable pub evaluate : SettleIdentity → ℕ → SpendPolicy → Option SettleRejectReason × SpendPolicy
unfolding evaluate_spend
evaluate id t p =
    let rate = p.cfg.rate_window_ms in
    let pay_to_recent = prune t rate (Dict.get_or id.pay_to [] p.per_pay_to) in
    let url_recent = prune t rate (Dict.get_or id.resource_url [] p.per_url) in
    let pool = prune t rate p.unbound_pool in
    if leb p.cfg.per_pay_to_max (length pay_to_recent)
    then (some rate_limited_payto, p)
    else if has_url_budget id && leb p.cfg.per_url_max (length url_recent)
    then (some rate_limited_url, p)
    else if not (has_url_budget id) && leb p.cfg.unbound_pool_max (length pool)
    then (some unbound_pool_exhausted, p)
    else evaluate_spend t p

-- `Math.max(...times)`.
unfoldable pub max_time : List ℕ → ℕ
max_time [] = 0
max_time (t ∷ ts) = let m = max_time ts in if ltb t m then m else t

-- The test by which evictElapsed() drops a bucket.
abbrev pub is_elapsed : ℕ → ℕ → List ℕ → Bool
is_elapsed t rate [] = true
is_elapsed t rate (x ∷ xs) = leb (max_time (x ∷ xs) + rate) t

pub evict_elapsed : ℕ → SpendPolicy → SpendPolicy
evict_elapsed t p = record p {
  per_pay_to = Dict.sweep (is_elapsed t p.cfg.rate_window_ms) p.per_pay_to;
  per_url = Dict.sweep (is_elapsed t p.cfg.rate_window_ms) p.per_url;
}

maybe_cleanup_db : ℕ → SpendPolicy → SpendPolicy
unfolding call
maybe_cleanup_db t p =
    if not p.has_store
    then p
    else if ltb (t - p.last_db_cleanup_at) db_cleanup_interval_ms
    then p
    else call (delete_elapsed t p.cfg.spend_window_ms) (record p { last_db_cleanup_at = t })

pub persist : ℕ → ℕ → ℕ → Status → SpendPolicy → SpendPolicy
unfolding call
persist id at stroops status p =
    call (save (record { id = id; at = at; stroops = stroops; status = status })) p

-- The first half of reserve(): the rate buckets.
pub count_settle : SettleIdentity → ℕ → SpendPolicy → SpendPolicy
count_settle id t p =
    let rate = p.cfg.rate_window_ms in
    let recent = prune t rate (Dict.get_or id.pay_to [] p.per_pay_to) ++ t ∷ [] in
    let counted : SpendPolicy = record p {
      per_pay_to = Dict.insert id.pay_to recent p.per_pay_to;
    } in
    let u = prune t rate (Dict.get_or id.resource_url [] p.per_url) ++ t ∷ [] in
    let pool = prune t rate p.unbound_pool ++ t ∷ [] in
    if has_url_budget id
    then record counted { per_url = Dict.insert id.resource_url u p.per_url }
    else record counted { unbound_pool = pool }

-- reserve(): the settle's own entry is the last of `globalSpend`; the result is its id.
unfoldable pub reserve : SettleIdentity → ℕ → SpendPolicy → ℕ × SpendPolicy
unfolding count_settle evict_elapsed persist maybe_cleanup_db
reserve id t p =
    let counted = count_settle id t p in
    let reservation_id = counted.next_reservation_id in
    let estimate = counted.cfg.per_settle_estimate_stroops in
    let booked : SpendPolicy = record counted {
      next_reservation_id = suc reservation_id;
      global_spend =
          counted.global_spend ++ record { at = t; stroops = estimate; id = reservation_id } ∷ [];
    } in
    (
      reservation_id,
      maybe_cleanup_db t (persist reservation_id t estimate opened (evict_elapsed t booked)),
    )

abbrev refusal : SettleRejectReason → SettleVerdict
refusal r = record { allowed = false; reason = some r; would_reject = none; reservation = none }

abbrev grant : Option SettleRejectReason → ℕ → SettleVerdict
grant flagged token = record {
  allowed = true;
  reason = none;
  would_reject = flagged;
  reservation = some token;
}

-- checkSettle() after evaluate().
unfoldable pub decide_settle :
    SettleIdentity → ℕ → Option SettleRejectReason × SpendPolicy → SettleVerdict × SpendPolicy
unfolding reserve enforced
decide_settle id t (none, p) = let (token, q) = reserve id t p in (grant none token, q)
decide_settle id t (some r, p) =
    let (token, q) = reserve id t p in
    if enforced p then (refusal r, p) else (grant (some r) token, q)

unfoldable pub check_settle : SettleIdentity → ℕ → SpendPolicy → SettleVerdict × SpendPolicy
check_settle id t p = decide_settle id t (evaluate id t p)

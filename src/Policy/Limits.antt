-- ===== src/Policy/Limits.antt =====
-- The rate limits, and the eviction of buckets that have aged out.
use vellar_facilitator.Base.{
  ℕ, suc, ◌+◌, ◌≤◌, ◌<◌, ◌≡◌, ◌∙◌, ap, refl, true, Option, none, some, List, [], ◌∷◌, String, ◌++◌,
  arith, inl, inr, length, filter-append, length-append, filter_idem, if◌then◌else◌,
  length-filter-le, ltb, Bool-cases, sym, eq_refl, subst,
}
use vellar_facilitator.Base.Dict
use vellar_facilitator.Base.Dict.{IsMap, lookup-sweep, lookup-insert, insert-IsMap, sweep-IsMap}
use vellar_facilitator.Policy.Spend.{reserve_lem, evaluate_keeps, pruned}
use vellar_facilitator.Policy.Ceiling.{check_settle-allowed}
use vellar_facilitator.Policy.{
  SpendPolicy, SpendPolicyConfig, SettleIdentity, SettleRejectReason, pubnet, prune, max_time,
  is_elapsed, has_url_budget, evict_elapsed, evaluate, reserve, count_settle, decide_settle,
  check_settle, enforced,
}

-- The times of a bucket that still count at `t`.
abbrev pub recent : ℕ → ℕ → String → List (String × List ℕ) → List ℕ
recent t rate k m = prune t rate (Dict.get_or k [] m)

le-max_time : (t rate : ℕ) (ts : List ℕ) → max_time ts + rate ≤ t → prune t rate ts ≡ []
unfolding max_time
le-max_time t rate [] h = refl
le-max_time t rate (x ∷ ts) h = ground (arith, le-max_time t rate ts)

prune-is_elapsed : (t rate : ℕ) (ts : List ℕ) → is_elapsed t rate ts ≡ true → prune t rate ts ≡ []
prune-is_elapsed t rate [] h = refl
prune-is_elapsed t rate (x ∷ ts) h = le-max_time t rate (x ∷ ts) (ground arith)

prune-kept :
    (t rate : ℕ) (o : Option (List ℕ))
    → prune t rate (Dict.value_or [] (Dict.kept (is_elapsed t rate) o))
      ≡ prune t rate (Dict.value_or [] o)
prune-kept t rate none = refl
prune-kept t rate (some ts) = elim (Bool-cases (is_elapsed t rate ts)) [
  | inl old ↦ rw old (sym (prune-is_elapsed t rate ts old))
  | inr fresh ↦ rw fresh
]

recent-sweep :
    (t rate : ℕ) (k : String) (m : List (String × List ℕ))
    → IsMap m
    → recent t rate k (Dict.sweep (is_elapsed t rate) m) ≡ recent t rate k m
recent-sweep t rate k m d =
    ap (λ o. prune t rate (Dict.value_or [] o)) (lookup-sweep k (is_elapsed t rate) m d)
    ∙ prune-kept t rate (Dict.lookup k m)

-- The keys of both maps are distinct, as a JavaScript Map's are.
pub record HasMaps (p : SpendPolicy) : Type 0 where
  pub pay_tos : IsMap p.per_pay_to
  pub urls : IsMap p.per_url

-- Dropping aged-out buckets changes no limit: for every payTo and every URL the times that count at
-- that moment are the same as before.
pub evict_elapsed-recent :
    (t : ℕ) (k : String) (p : SpendPolicy)
    → HasMaps p
    → (recent t p.cfg.rate_window_ms k (evict_elapsed t p).per_pay_to
        ≡ recent t p.cfg.rate_window_ms k p.per_pay_to)
      × (recent t p.cfg.rate_window_ms k (evict_elapsed t p).per_url
          ≡ recent t p.cfg.rate_window_ms k p.per_url)
unfolding evict_elapsed
evict_elapsed-recent t k p d = (
  recent-sweep t p.cfg.rate_window_ms k p.per_pay_to d.pay_tos,
  recent-sweep t p.cfg.rate_window_ms k p.per_url d.urls,
)

-- The buckets after reserve() are those that count_settle and the eviction leave.
reserve-buckets :
    (id : SettleIdentity) (t : ℕ) (p : SpendPolicy)
    → let q = evict_elapsed t (count_settle id t p) in
      ((reserve id t p).1.per_pay_to ≡ q.per_pay_to)
      × ((reserve id t p).1.per_url ≡ q.per_url)
      × ((reserve id t p).1.unbound_pool ≡ (count_settle id t p).unbound_pool)
unfolding reserve evict_elapsed
reserve-buckets id t p = (ground arith, ground arith, ground arith)

count_settle-HasMaps :
    (id : SettleIdentity) (t : ℕ) (p : SpendPolicy) → HasMaps p → HasMaps (count_settle id t p)
unfolding count_settle
count_settle-HasMaps id t p d =
    let rate = p.cfg.rate_window_ms in
    let pay_to =
      insert-IsMap id.pay_to (recent t rate id.pay_to p.per_pay_to ++ t ∷ []) p.per_pay_to
        d.pay_tos in
    let url =
      insert-IsMap id.resource_url (recent t rate id.resource_url p.per_url ++ t ∷ []) p.per_url
        d.urls in
    elim (Bool-cases (has_url_budget id)) [
      | inl own ↦ rw own (record { pay_tos = pay_to; urls = url })
      | inr shared ↦ rw shared (record { pay_tos = pay_to; urls = d.urls })
    ]

-- The budget beside the payTo's that a settle counts against: its URL's own, or the shared pool.
abbrev pub budget_used : SettleIdentity → ℕ → SpendPolicy → ℕ
budget_used id t p =
    if has_url_budget id
    then length (recent t p.cfg.rate_window_ms id.resource_url p.per_url)
    else length (prune t p.cfg.rate_window_ms p.unbound_pool)

abbrev pub budget_max : SettleIdentity → SpendPolicyConfig → ℕ
budget_max id cfg = if has_url_budget id then cfg.per_url_max else cfg.unbound_pool_max

abbrev pub pay_to_used : SettleIdentity → ℕ → SpendPolicy → ℕ
pay_to_used id t p = length (recent t p.cfg.rate_window_ms id.pay_to p.per_pay_to)

evaluate_room :
    (id : SettleIdentity) (t : ℕ) (p : SpendPolicy)
    → (evaluate id t p).0 ≡ none
    → (pay_to_used id t p < p.cfg.per_pay_to_max) × (budget_used id t p < budget_max id p.cfg)
unfolding evaluate
evaluate_room id t p h = (ground arith, ground arith)

length-prune-again :
    (t rate : ℕ) (ts : List ℕ)
    → length (prune t rate (prune t rate ts ++ t ∷ [])) ≤ suc (length (prune t rate ts))
length-prune-again t rate ts = omega (
  arith,
  ap length (filter-append (λ x. ltb t (x + rate)) (prune t rate ts) (t ∷ [])),
  length-append (prune t rate (prune t rate ts)) (prune t rate (t ∷ [])),
  ap length (filter_idem (λ x. ltb t (x + rate)) ts),
  length-filter-le (λ x. ltb t (x + rate)) (t ∷ []),
)

recent-insert :
    (t rate : ℕ) (k : String) (m : List (String × List ℕ))
    → length (recent t rate k (Dict.insert k (recent t rate k m ++ t ∷ []) m))
      ≤ suc (length (recent t rate k m))
recent-insert t rate k m =
    rw (lookup-insert k k (recent t rate k m ++ t ∷ []) m, eq_refl k)
      (length-prune-again t rate (Dict.get_or k [] m))

count_settle_used :
    (id : SettleIdentity) (t : ℕ) (p : SpendPolicy)
    → (pay_to_used id t (count_settle id t p) ≤ suc (pay_to_used id t p))
      × (budget_used id t (count_settle id t p) ≤ suc (budget_used id t p))
      × ((count_settle id t p).cfg ≡ p.cfg)
unfolding count_settle
count_settle_used id t p =
    let rate = p.cfg.rate_window_ms in
    let pay_to = recent-insert t rate id.pay_to p.per_pay_to in
    elim (Bool-cases (has_url_budget id)) [
      | inl own ↦ rw own (pay_to, recent-insert t rate id.resource_url p.per_url, refl)
      | inr shared ↦ rw shared (pay_to, length-prune-again t rate p.unbound_pool, refl)
    ]

reserve-HasMaps :
    (id : SettleIdentity) (t : ℕ) (p : SpendPolicy) → HasMaps p → HasMaps (reserve id t p).1
unfolding evict_elapsed
reserve-HasMaps id t p d =
    let (pay_tos, urls, _) = reserve-buckets id t p in
    let c = count_settle id t p in
    let drop = is_elapsed t c.cfg.rate_window_ms in
    let maps = count_settle-HasMaps id t p d in
    record {
      pay_tos = subst IsMap (sym pay_tos) (sweep-IsMap drop c.per_pay_to maps.pay_tos);
      urls = subst IsMap (sym urls) (sweep-IsMap drop c.per_url maps.urls);
    }

pay_to_used-cong :
    (id : SettleIdentity) (t : ℕ) (p q : SpendPolicy)
    → p.cfg ≡ q.cfg
    → recent t q.cfg.rate_window_ms id.pay_to p.per_pay_to
      ≡ recent t q.cfg.rate_window_ms id.pay_to q.per_pay_to
    → pay_to_used id t p ≡ pay_to_used id t q
pay_to_used-cong id t p q cfg e = rw cfg (ap length e)

budget_used-cong :
    (id : SettleIdentity) (t : ℕ) (p q : SpendPolicy)
    → p.cfg ≡ q.cfg
    → recent t q.cfg.rate_window_ms id.resource_url p.per_url
      ≡ recent t q.cfg.rate_window_ms id.resource_url q.per_url
    → p.unbound_pool ≡ q.unbound_pool
    → budget_used id t p ≡ budget_used id t q
budget_used-cong id t p q cfg e pool =
    rw (cfg, pool)
      (ap
        (λ ts.
          if has_url_budget id
          then length ts
          else length (prune t q.cfg.rate_window_ms q.unbound_pool))
        e)

reserve_used :
    (id : SettleIdentity) (t : ℕ) (p : SpendPolicy)
    → HasMaps p
    → (pay_to_used id t (reserve id t p).1 ≤ suc (pay_to_used id t p))
      × (budget_used id t (reserve id t p).1 ≤ suc (budget_used id t p))
reserve_used id t p d =
    let c = count_settle id t p in
    let (pay_tos, urls, pool) = reserve-buckets id t p in
    let used = count_settle_used id t p in
    let cfg = (reserve_lem id t p).2 ∙ sym used.2 in
    let maps = count_settle-HasMaps id t p d in
    let rate = c.cfg.rate_window_ms in
    (
      omega (
        arith,
        used.0,
        pay_to_used-cong id t (reserve id t p).1 c cfg
            (ap (recent t rate id.pay_to) pay_tos ∙ (evict_elapsed-recent t id.pay_to c maps).0),
      ),
      omega (
        arith,
        used.1,
        budget_used-cong id t (reserve id t p).1 c cfg
            (ap (recent t rate id.resource_url) urls
              ∙ (evict_elapsed-recent t id.resource_url c maps).1)
            pool,
      ),
    )

-- A settle that pubnet allows leaves, with itself counted, at most the payTo's limit in the payTo's
-- window, and at most the limit of its URL, or of the pool of unbound URLs, in that window.
pub allowed_within_limits :
    (id : SettleIdentity) (t : ℕ) (p : SpendPolicy)
    → p.cfg.network ≡ pubnet
    → HasMaps p
    → (check_settle id t p).0.allowed ≡ true
    → (pay_to_used id t (check_settle id t p).1 ≤ p.cfg.per_pay_to_max)
      × (budget_used id t (check_settle id t p).1 ≤ budget_max id p.cfg)
allowed_within_limits id t p pub_net d ok =
    let (clear, after) = check_settle-allowed id t p pub_net ok in
    let room = evaluate_room id t p clear in
    let used = reserve_used id t (pruned t p) (record { pay_tos = d.pay_tos; urls = d.urls }) in
    (
      omega (arith, room.0, used.0, ap (pay_to_used id t) after),
      omega (arith, room.1, used.1, ap (budget_used id t) after),
    )

decide_settle-HasMaps :
    (id : SettleIdentity) (t : ℕ) (o : Option SettleRejectReason) (q : SpendPolicy)
    → HasMaps q
    → HasMaps (decide_settle id t (o, q)).1
unfolding decide_settle
decide_settle-HasMaps id t none q d = reserve-HasMaps id t q d
decide_settle-HasMaps id t (some r) q d = elim (Bool-cases (enforced q)) [
  | inl e ↦ rw e d
  | inr e ↦ rw e (reserve-HasMaps id t q d)
]

-- checkSettle keeps the keys of both maps distinct, whatever it answers.
pub check_settle-HasMaps :
    (id : SettleIdentity) (t : ℕ) (p : SpendPolicy) → HasMaps p → HasMaps (check_settle id t p).1
unfolding check_settle
check_settle-HasMaps id t p d =
    decide_settle-HasMaps id t (evaluate id t p).0 (evaluate id t p).1
      (elim (evaluate_keeps id t p) [
        | inl e ↦ subst HasMaps (sym e) d
        | inr e ↦ subst HasMaps (sym e) (record { pay_tos = d.pay_tos; urls = d.urls })
      ])

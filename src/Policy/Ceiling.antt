-- ===== src/Policy/Ceiling.antt =====
-- The global spend ceiling.
use vellar_facilitator.Base.{
  ℕ, ◌+◌, ◌≤◌, ◌≡◌, ◌∙◌, ap, refl, true, false, Option, none, some, [], ◌∷◌, arith,
}
use vellar_facilitator.Policy.{
  SpendPolicy, SpendPolicyConfig, SettleIdentity, SettleRejectReason, pubnet, Entry, sum_stroops,
  evaluate, reserve, decide_settle, check_settle, enforced,
}
use vellar_facilitator.Policy.Spend.{
  spend_at, live_spend, spend_at-append, spend_at_mono, entry_of, reserve_lem, pruned,
  evaluate_keeps, evaluate_clear, evaluate-cfg, evaluate-live_spend,
}

enforced_pubnet : (p : SpendPolicy) → p.cfg.network ≡ pubnet → enforced p ≡ true
unfolding enforced
enforced_pubnet p h = ground arith

spend_of_one : (t w : ℕ) (e : Entry) → spend_at t w (e ∷ []) ≤ e.stroops
unfolding sum_stroops
spend_of_one t w e = ground arith

reserve-live_spend :
    (id : SettleIdentity) (t later : ℕ) (p : SpendPolicy)
    → live_spend later (reserve id t p).1 ≤ live_spend later p + p.cfg.per_settle_estimate_stroops
reserve-live_spend id t later p =
    let (_, booked, cfg, _) = reserve_lem id t p in
    let w = p.cfg.spend_window_ms in
    rw (booked, cfg)
      (omega (
        arith,
        spend_at-append later w p.global_spend (entry_of t p ∷ []),
        spend_of_one later w (entry_of t p),
      ))

decide_settle-live_spend :
    (id : SettleIdentity) (t later : ℕ) (o : Option SettleRejectReason) (q : SpendPolicy)
    → q.cfg.network ≡ pubnet
    → (o ≡ none
        → live_spend later q + q.cfg.per_settle_estimate_stroops ≤ q.cfg.spend_ceiling_stroops)
    → (decide_settle id t (o, q)).0.allowed ≡ true
    → live_spend later (decide_settle id t (o, q)).1 ≤ q.cfg.spend_ceiling_stroops
unfolding decide_settle
decide_settle-live_spend id t later none q pub_net room ok =
    omega (arith, room refl, reserve-live_spend id t later q)
decide_settle-live_spend id t later (some r) q pub_net room ok =
    ground (arith, enforced_pubnet q pub_net)

-- A settle that pubnet allows leaves the spend of the window, this settle's worst case included,
-- within the ceiling, at the time of the settle and at any later time.
pub allowed_within_ceiling :
    (id : SettleIdentity) (t later : ℕ) (p : SpendPolicy)
    → p.cfg.network ≡ pubnet
    → t ≤ later
    → (check_settle id t p).0.allowed ≡ true
    → live_spend later (check_settle id t p).1 ≤ p.cfg.spend_ceiling_stroops
unfolding check_settle
allowed_within_ceiling id t later p pub_net h ok =
    let cfg = evaluate-cfg id t p in
    let same = evaluate-live_spend id t later p h in
    let w = p.cfg.spend_window_ms in
    omega (
      arith,
      decide_settle-live_spend id t later (evaluate id t p).0 (evaluate id t p).1
          (ap (λ (c : SpendPolicyConfig). c.network) cfg ∙ pub_net)
          (λ clear. omega (
            arith,
            same,
            (evaluate_clear id t p clear).1,
            spend_at_mono t later w p.global_spend h,
            ap (λ (c : SpendPolicyConfig). c.spend_ceiling_stroops) cfg,
            ap (λ (c : SpendPolicyConfig). c.per_settle_estimate_stroops) cfg,
          ))
          ok,
      ap (λ (c : SpendPolicyConfig). c.spend_ceiling_stroops) cfg,
    )

pub decide_settle-cfg :
    (id : SettleIdentity) (t : ℕ) (o : Option SettleRejectReason) (q : SpendPolicy)
    → (decide_settle id t (o, q)).1.cfg ≡ q.cfg
unfolding decide_settle
decide_settle-cfg id t none q = (reserve_lem id t q).2
decide_settle-cfg id t (some r) q = ground (arith, reserve_lem id t q)

pub check_settle-cfg :
    (id : SettleIdentity) (t : ℕ) (p : SpendPolicy) → (check_settle id t p).1.cfg ≡ p.cfg
unfolding check_settle
check_settle-cfg id t p =
    decide_settle-cfg id t (evaluate id t p).0 (evaluate id t p).1 ∙ evaluate-cfg id t p

decide_settle-refused :
    (id : SettleIdentity) (t : ℕ) (o : Option SettleRejectReason) (q : SpendPolicy)
    → (decide_settle id t (o, q)).0.allowed ≡ false
    → (decide_settle id t (o, q)).1 ≡ q
unfolding decide_settle
decide_settle-refused id t none q h = cc
decide_settle-refused id t (some r) q h = ground arith

pub check_settle-refused :
    (id : SettleIdentity) (t : ℕ) (p : SpendPolicy)
    → (check_settle id t p).0.allowed ≡ false
    → (check_settle id t p).1 ≡ (evaluate id t p).1
unfolding check_settle
check_settle-refused id t p h = decide_settle-refused id t (evaluate id t p).0 (evaluate id t p).1 h

-- A refused settle consumes nothing: no rate bucket, no reservation id and no call of the store,
-- and the spend counted at the time of the settle or later is what it was.
pub refused_consumes_nothing :
    (id : SettleIdentity) (t later : ℕ) (p : SpendPolicy)
    → t ≤ later
    → (check_settle id t p).0.allowed ≡ false
    → let q = (check_settle id t p).1 in
      (q.per_pay_to ≡ p.per_pay_to)
      × (q.per_url ≡ p.per_url)
      × (q.unbound_pool ≡ p.unbound_pool)
      × (q.next_reservation_id ≡ p.next_reservation_id)
      × (q.calls ≡ p.calls)
      × (live_spend later q ≡ live_spend later p)
refused_consumes_nothing id t later p h refused =
    let same = check_settle-refused id t p refused in
    let kept = evaluate_keeps id t p in
    (
      ground (arith, same, kept),
      ground (arith, same, kept),
      ground (arith, same, kept),
      ground (arith, same, kept),
      ground (arith, same, kept),
      ap (live_spend later) same ∙ evaluate-live_spend id t later p h,
    )

decide_settle-allowed :
    (id : SettleIdentity) (t : ℕ) (o : Option SettleRejectReason) (q : SpendPolicy)
    → q.cfg.network ≡ pubnet
    → (decide_settle id t (o, q)).0.allowed ≡ true
    → (o ≡ none) × ((decide_settle id t (o, q)).1 ≡ (reserve id t q).1)
unfolding decide_settle
decide_settle-allowed id t none q pub_net ok = (refl, refl)
decide_settle-allowed id t (some r) q pub_net ok =
    absurd (ground (arith, enforced_pubnet q pub_net))

-- On pubnet a settle is allowed only when no limit is crossed, and then it is reserved.
pub check_settle-allowed :
    (id : SettleIdentity) (t : ℕ) (p : SpendPolicy)
    → p.cfg.network ≡ pubnet
    → (check_settle id t p).0.allowed ≡ true
    → ((evaluate id t p).0 ≡ none) × ((check_settle id t p).1 ≡ (reserve id t (pruned t p)).1)
unfolding check_settle
check_settle-allowed id t p pub_net ok =
    let (clear, after) =
      decide_settle-allowed id t (evaluate id t p).0 (evaluate id t p).1
        (ap (λ (c : SpendPolicyConfig). c.network) (evaluate-cfg id t p) ∙ pub_net) ok in
    (clear, after ∙ ap (λ q. (reserve id t q).1) (evaluate_clear id t p clear).0)

-- ===== src/Policy/History.antt =====
-- Histories of a policy: settles, refunds and corrections in any order, and the ceiling over them.
use vellar_facilitator.Base.{
  ℕ, ◌≤◌, ◌≡◌, ◌∙◌, ap, refl, Option, none, some, List, [], ◌∷◌, arith, inl, inr, Bool-cases,
}
use mathlib.Core.Option
use vellar_facilitator.Policy.{
  SpendPolicy, SpendPolicyConfig, SettleIdentity, pubnet, Entry, Status, reconciled, sum_stroops,
  check_settle,
}
use vellar_facilitator.Policy.Spend.{
  spend_at, live_spend, spend_at_mono, persist_keeps, evaluate-live_spend,
}
use vellar_facilitator.Policy.Ceiling.{
  allowed_within_ceiling, check_settle-cfg, check_settle-refused,
}
use vellar_facilitator.Policy.Adjust.{
  refund_unspent, adjust_reservation, adjust_found, reserved_stroops, find_entry, set_stroops,
  splice_out,
}

pub data Op : Type 0 where
  settles : SettleIdentity → ℕ → Op
  refunds : Option ℕ → Op
  adjusts : Option ℕ → ℕ → Status → Op

unfoldable pub step : SpendPolicy → Op → SpendPolicy
step p (settles id t) = (check_settle id t p).1
step p (refunds token) = refund_unspent token p
step p (adjusts token n status) = (adjust_reservation token n status p).1

unfoldable pub run : SpendPolicy → List Op → SpendPolicy
run p [] = p
run p (op ∷ ops) = run (step p op) ops

-- A correction does not raise the booked amount.
abbrev pub IsDownward : ℕ → Option ℕ → Type 0
IsDownward n none = Unit {0}
IsDownward n (some old) = n ≤ old

-- The clock, last read at `t`, does not run backwards, and corrections only lower amounts.
abbrev pub IsOrderly : ℕ → SpendPolicy → List Op → Type 0
IsOrderly t p [] = Unit {0}
IsOrderly t p (settles id u ∷ ops) = (t ≤ u) × IsOrderly u (step p (settles id u)) ops
IsOrderly t p (refunds token ∷ ops) = IsOrderly t (step p (refunds token)) ops
IsOrderly t p (adjusts token n status ∷ ops) =
    IsDownward n (reserved_stroops token p) × IsOrderly t (step p (adjusts token n status)) ops

-- The time at which a history ends.
abbrev pub end_time : ℕ → List Op → ℕ
end_time t [] = t
end_time t (settles id u ∷ ops) = end_time u ops
end_time t (refunds token ∷ ops) = end_time t ops
end_time t (adjusts token n status ∷ ops) = end_time t ops

pub spend_at-splice_out :
    (t w token : ℕ) (es : List Entry) → spend_at t w (splice_out token es) ≤ spend_at t w es
unfolding sum_stroops splice_out
spend_at-splice_out t w token [] = omega arith
spend_at-splice_out t w token (e ∷ es) = ground (arith, spend_at-splice_out t w token es)

pub spend_at-set_stroops :
    (t w token n : ℕ) (es : List Entry) (e : Entry)
    → find_entry token es ≡ some e
    → n ≤ e.stroops
    → spend_at t w (set_stroops token n es) ≤ spend_at t w es
unfolding sum_stroops set_stroops find_entry
spend_at-set_stroops t w token n [] e found h = cc
spend_at-set_stroops t w token n (x ∷ es) e found h =
    ground (arith, spend_at-set_stroops t w token n es e)

pub refund-global_spend :
    (token : ℕ) (p : SpendPolicy)
    → ((refund_unspent (some token) p).global_spend ≡ splice_out token p.global_spend)
      × ((refund_unspent (some token) p).cfg ≡ p.cfg)
unfolding refund_unspent
refund-global_spend token p =
    let kept =
      persist_keeps token 0 0 reconciled
        (record p { global_spend = splice_out token p.global_spend }) in
    (kept.0, kept.1)

-- What a correction leaves in memory, with the entry that it finds and without one.
pub adjust-global_spend :
    (token n : ℕ) (status : Status) (p : SpendPolicy) (o : Option Entry)
    → ((adjust_found token n status o p).1.global_spend
        ≡ elim o [ none ↦ p.global_spend | some _ ↦ set_stroops token n p.global_spend ])
      × ((adjust_found token n status o p).1.cfg ≡ p.cfg)
unfolding adjust_found
adjust-global_spend token n status p none = (refl, refl)
adjust-global_spend token n status p (some e) =
    let kept =
      persist_keeps token e.at n status
        (record p { global_spend = set_stroops token n p.global_spend }) in
    (ground (arith, kept), ground (arith, kept))

pub step-cfg : (p : SpendPolicy) (op : Op) → (step p op).cfg ≡ p.cfg
unfolding step refund_unspent adjust_reservation
step-cfg p (settles id t) = check_settle-cfg id t p
step-cfg p (refunds none) = refl
step-cfg p (refunds (some token)) = (refund-global_spend token p).1
step-cfg p (adjusts none n status) = refl
step-cfg p (adjusts (some token) n status) =
    (adjust-global_spend token n status p (find_entry token p.global_spend)).1

refund-live_spend :
    (t : ℕ) (token : Option ℕ) (p : SpendPolicy)
    → live_spend t (step p (refunds token)) ≤ live_spend t p
unfolding step refund_unspent
refund-live_spend t none p = omega arith
refund-live_spend t (some token) p =
    let (global, cfg) = refund-global_spend token p in
    rw (global, cfg) (spend_at-splice_out t p.cfg.spend_window_ms token p.global_spend)

adjust_found-live_spend :
    (t token n : ℕ) (status : Status) (p : SpendPolicy) (o : Option Entry)
    → find_entry token p.global_spend ≡ o
    → IsDownward n (Option.map (λ (e : Entry). e.stroops) o)
    → live_spend t (adjust_found token n status o p).1 ≤ live_spend t p
adjust_found-live_spend t token n status p none found h =
    let (global, cfg) = adjust-global_spend token n status p none in rw (global, cfg) (omega arith)
adjust_found-live_spend t token n status p (some e) found h =
    let (global, cfg) = adjust-global_spend token n status p (some e) in
    rw (global, cfg) (spend_at-set_stroops t p.cfg.spend_window_ms token n p.global_spend e found h)

adjust-live_spend :
    (t : ℕ) (token : Option ℕ) (n : ℕ) (status : Status) (p : SpendPolicy)
    → IsDownward n (reserved_stroops token p)
    → live_spend t (step p (adjusts token n status)) ≤ live_spend t p
unfolding step adjust_reservation reserved_stroops
adjust-live_spend t none n status p h = omega arith
adjust-live_spend t (some token) n status p h =
    adjust_found-live_spend t token n status p (find_entry token p.global_spend) refl h

settle-live_spend :
    (id : SettleIdentity) (t u : ℕ) (p : SpendPolicy)
    → p.cfg.network ≡ pubnet
    → t ≤ u
    → live_spend t p ≤ p.cfg.spend_ceiling_stroops
    → live_spend u (step p (settles id u)) ≤ p.cfg.spend_ceiling_stroops
unfolding step
settle-live_spend id t u p pub_net h within = elim (Bool-cases (check_settle id u p).0.allowed) [
  | inl ok ↦ allowed_within_ceiling id u u p pub_net (omega arith) ok
  | inr refused ↦ omega (
    arith,
    ap (live_spend u) (check_settle-refused id u p refused),
    evaluate-live_spend id u u p,
    spend_at_mono t u p.cfg.spend_window_ms p.global_spend h,
  )
]

run-bound :
    (k t : ℕ) (p : SpendPolicy) (ops : List Op)
    → p.cfg.network ≡ pubnet
    → p.cfg.spend_ceiling_stroops ≡ k
    → live_spend t p ≤ k
    → IsOrderly t p ops
    → live_spend (end_time t ops) (run p ops) ≤ k
unfolding run
run-bound k t p [] pub_net c within h = within
run-bound k t p (settles id u ∷ ops) pub_net c within h =
    let cfg = step-cfg p (settles id u) in
    run-bound k u (step p (settles id u)) ops
      (ap (λ (x : SpendPolicyConfig). x.network) cfg ∙ pub_net)
      (ap (λ (x : SpendPolicyConfig). x.spend_ceiling_stroops) cfg ∙ c)
      (omega (arith, settle-live_spend id t u p pub_net h.0 (omega arith))) h.1
run-bound k t p (refunds token ∷ ops) pub_net c within h =
    let cfg = step-cfg p (refunds token) in
    run-bound k t (step p (refunds token)) ops
      (ap (λ (x : SpendPolicyConfig). x.network) cfg ∙ pub_net)
      (ap (λ (x : SpendPolicyConfig). x.spend_ceiling_stroops) cfg ∙ c)
      (omega (arith, refund-live_spend t token p)) h
run-bound k t p (adjusts token n status ∷ ops) pub_net c within h =
    let cfg = step-cfg p (adjusts token n status) in
    run-bound k t (step p (adjusts token n status)) ops
      (ap (λ (x : SpendPolicyConfig). x.network) cfg ∙ pub_net)
      (ap (λ (x : SpendPolicyConfig). x.spend_ceiling_stroops) cfg ∙ c)
      (omega (arith, adjust-live_spend t token n status p h.0)) h.1

-- Along every history whose clock does not run backwards and whose corrections only lower booked
-- amounts, the spend that pubnet counts at the end is within the ceiling, if it was at the start.
pub run_within_ceiling :
    (t : ℕ) (p : SpendPolicy) (ops : List Op)
    → p.cfg.network ≡ pubnet
    → live_spend t p ≤ p.cfg.spend_ceiling_stroops
    → IsOrderly t p ops
    → live_spend (end_time t ops) (run p ops) ≤ p.cfg.spend_ceiling_stroops
run_within_ceiling t p ops pub_net within h =
    run-bound p.cfg.spend_ceiling_stroops t p ops pub_net refl within h

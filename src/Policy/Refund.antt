-- ===== src/Policy/Refund.antt =====
-- src/policy.ts: a reservation is released by its own id.
use vellar_facilitator.Base.{
  ℕ, suc, ◌≤◌, ◌<◌, ◌≡◌, ◌∙◌, sym, ap, refl, Bool, true, Option, none, some, List, [], ◌∷◌, ◌++◌,
  arith, inl, inr, All, filter, subst, Bool-cases, ◌==◌, if◌then◌else◌,
}
use mathlib.Core.Option
use vellar_facilitator.Policy.{
  SpendPolicy, SettleIdentity, SettleRejectReason, Entry, live, evaluate, reserve, decide_settle,
  check_settle, enforced,
}
use vellar_facilitator.Policy.Spend.{
  live_spend, reserve_lem, evaluate-live_spend, evaluate_keeps, entry_of,
}
use vellar_facilitator.Policy.Adjust.{refund_unspent, find_entry, set_stroops, splice_out}
use vellar_facilitator.Policy.History.{refund-global_spend}

-- Every id in use is below the next one.
abbrev pub IsFresh : SpendPolicy → Type 0
IsFresh p = All (λ (e : Entry). e.id < p.next_reservation_id) p.global_spend

All-below-filter :
    (n : ℕ) (keep : Entry → Bool) (es : List Entry)
    → All (λ (e : Entry). e.id < n) es
    → All (λ (e : Entry). e.id < n) (filter keep es)
All-below-filter n keep [] h = tt
All-below-filter n keep (e ∷ es) h = ground (arith, All-below-filter n keep es h.1)

All-below-concat :
    (n : ℕ) (es : List Entry) (e : Entry)
    → All (λ (x : Entry). x.id < n) es
    → e.id ≡ n
    → All (λ (x : Entry). x.id < suc n) (es ++ e ∷ [])
All-below-concat n [] e h same = (omega arith, tt)
All-below-concat n (x ∷ es) e h same = (omega arith, All-below-concat n es e h.1 same)

evaluate-IsFresh :
    (id : SettleIdentity) (t : ℕ) (p : SpendPolicy) → IsFresh p → IsFresh (evaluate id t p).1
evaluate-IsFresh id t p h = elim (evaluate_keeps id t p) [
  | inl e ↦ subst IsFresh (sym e) h
  | inr e ↦
      subst IsFresh (sym e)
        (All-below-filter p.next_reservation_id (live t p.cfg.spend_window_ms) p.global_spend h)
]

reserve-IsFresh :
    (id : SettleIdentity) (t : ℕ) (p : SpendPolicy) → IsFresh p → IsFresh (reserve id t p).1
reserve-IsFresh id t p h =
    let (_, booked, _, next) = reserve_lem id t p in
    rw (booked, next) (All-below-concat p.next_reservation_id p.global_spend (entry_of t p) h refl)

decide_settle-IsFresh :
    (id : SettleIdentity) (t : ℕ) (o : Option SettleRejectReason) (q : SpendPolicy)
    → IsFresh q
    → IsFresh (decide_settle id t (o, q)).1
unfolding decide_settle
decide_settle-IsFresh id t none q h = reserve-IsFresh id t q h
decide_settle-IsFresh id t (some r) q h = elim (Bool-cases (enforced q)) [
  | inl e ↦ rw e h
  | inr e ↦ rw e (reserve-IsFresh id t q h)
]

pub check_settle-IsFresh :
    (id : SettleIdentity) (t : ℕ) (p : SpendPolicy) → IsFresh p → IsFresh (check_settle id t p).1
unfolding check_settle
check_settle-IsFresh id t p h =
    decide_settle-IsFresh id t (evaluate id t p).0 (evaluate id t p).1 (evaluate-IsFresh id t p h)

-- What a settle that is allowed books.
decide_settle-booked :
    (id : SettleIdentity) (t token : ℕ) (o : Option SettleRejectReason) (q : SpendPolicy)
    → (decide_settle id t (o, q)).0.reservation ≡ some token
    → (token ≡ q.next_reservation_id)
      × ((decide_settle id t (o, q)).1.global_spend ≡ q.global_spend ++ entry_of t q ∷ [])
      × ((decide_settle id t (o, q)).1.cfg ≡ q.cfg)
unfolding decide_settle
decide_settle-booked id t token none q h =
    let r = reserve_lem id t q in (ground (arith, r), r.1, r.2)
decide_settle-booked id t token (some reason) q h =
    let r = reserve_lem id t q in (ground (arith, r), ground (arith, r), ground (arith, r))

decide_settle-reserves :
    (id : SettleIdentity) (t : ℕ) (o : Option SettleRejectReason) (q : SpendPolicy)
    → (decide_settle id t (o, q)).0.allowed ≡ true
    → (token : ℕ) × ((decide_settle id t (o, q)).0.reservation ≡ some token)
unfolding decide_settle
decide_settle-reserves id t none q h = ((reserve id t q).0, refl)
decide_settle-reserves id t (some r) q h = elim (Bool-cases (enforced q)) [
  | inl on ↦ absurd (ground (arith, h, on))
  | inr off ↦ ((reserve id t q).0, rw off refl)
]

-- A settle that is allowed has a reservation.
pub check_settle-reserves :
    (id : SettleIdentity) (t : ℕ) (p : SpendPolicy)
    → (check_settle id t p).0.allowed ≡ true
    → (token : ℕ) × ((check_settle id t p).0.reservation ≡ some token)
unfolding check_settle
check_settle-reserves id t p h =
    decide_settle-reserves id t (evaluate id t p).0 (evaluate id t p).1 h

splice_out-fresh :
    (token : ℕ) (es : List Entry) (e : Entry)
    → All (λ (x : Entry). x.id < token) es
    → e.id ≡ token
    → splice_out token (es ++ e ∷ []) ≡ es
unfolding splice_out
splice_out-fresh token [] e h same = ground arith
splice_out-fresh token (x ∷ es) e h same = ground (arith, splice_out-fresh token es e h.1 same)

live_spend-cong :
    (t : ℕ) (p q : SpendPolicy)
    → p.global_spend ≡ q.global_spend
    → p.cfg ≡ q.cfg
    → live_spend t p ≡ live_spend t q
live_spend-cong t p q global cfg = rw (global, cfg)

-- Refunding the reservation of a settle gives back exactly what the settle booked: the spend
-- counted from then on is what it would be without the settle.
pub refund-check_settle :
    (id : SettleIdentity) (t later token : ℕ) (p : SpendPolicy)
    → IsFresh p
    → t ≤ later
    → (check_settle id t p).0.reservation ≡ some token
    → live_spend later (refund_unspent (some token) (check_settle id t p).1) ≡ live_spend later p
unfolding check_settle
refund-check_settle id t later token p fresh h booked =
    let e = evaluate id t p in
    let q = (decide_settle id t e).1 in
    let (same, global, cfg) = decide_settle-booked id t token e.0 e.1 booked in
    let (out, kept) = refund-global_spend token q in
    let older =
      subst (λ n. All (λ (x : Entry). x.id < n) e.1.global_spend) (sym same)
        (evaluate-IsFresh id t p fresh) in
    live_spend-cong later (refund_unspent (some token) q) e.1
      (out
        ∙ ap (splice_out token) global
        ∙ splice_out-fresh token e.1.global_spend (entry_of t e.1) older (sym same))
      (kept ∙ cfg)
    ∙ evaluate-live_spend id t later p h

find_entry-set_stroops :
    (token n other : ℕ) (es : List Entry) (e : Entry)
    → find_entry token es ≡ some e
    → Option.map (λ (x : Entry). x.stroops) (find_entry other (set_stroops token n es)) ≡ (
        if token == other
        then some n
        else Option.map (λ (x : Entry). x.stroops) (find_entry other es))
unfolding find_entry set_stroops
find_entry-set_stroops token n other [] e found = cc
find_entry-set_stroops token n other (x ∷ es) e found =
    ground (arith, find_entry-set_stroops token n other es e)

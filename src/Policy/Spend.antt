-- ===== src/Policy/Spend.antt =====
-- The sponsor spend that counts at a time, and what a reservation adds to it.
use vellar_facilitator.Base.{
  ◌⊎◌, inl, inr, ℕ, suc, ◌+◌, ◌≤◌, ◌≡◌, ◌∙◌, ap, refl, none, List, [], ◌∷◌, ◌++◌, arith, filter,
  filter-append,
}
use vellar_facilitator.Policy.{
  Status, persist, SpendPolicy, SettleIdentity, Entry, live, sum_stroops, evaluate, reserve,
}

-- The stroops booked in the window that ends at `t`.
abbrev pub spend_at : ℕ → ℕ → List Entry → ℕ
spend_at t window es = sum_stroops (filter (live t window) es)

abbrev pub live_spend : ℕ → SpendPolicy → ℕ
live_spend t p = spend_at t p.cfg.spend_window_ms p.global_spend

pub sum_stroops-append :
    (xs ys : List Entry) → sum_stroops (xs ++ ys) ≡ sum_stroops xs + sum_stroops ys
unfolding sum_stroops
sum_stroops-append [] ys = omega arith
sum_stroops-append (x ∷ xs) ys = omega (arith, sum_stroops-append xs ys)

pub spend_at-append :
    (t w : ℕ) (xs ys : List Entry) → spend_at t w (xs ++ ys) ≡ spend_at t w xs + spend_at t w ys
spend_at-append t w xs ys =
    rw (filter-append (live t w) xs ys)
      (sum_stroops-append (filter (live t w) xs) (filter (live t w) ys))

-- What counts later counted before.
pub spend_at_mono : (t t' w : ℕ) (es : List Entry) → t ≤ t' → spend_at t' w es ≤ spend_at t w es
unfolding sum_stroops
spend_at_mono t t' w [] h = omega arith
spend_at_mono t t' w (e ∷ es) h = ground (arith, spend_at_mono t t' w es h)

pub live_of_later :
    (t t' w : ℕ) (es : List Entry)
    → t ≤ t'
    → filter (live t' w) (filter (live t w) es) ≡ filter (live t' w) es
live_of_later t t' w [] h = refl
live_of_later t t' w (e ∷ es) h = ground (arith, live_of_later t t' w es h)

abbrev pub entry_of : ℕ → SpendPolicy → Entry
entry_of t p = record {
  at = t;
  stroops = p.cfg.per_settle_estimate_stroops;
  id = p.next_reservation_id;
}

pub reserve_lem :
    (id : SettleIdentity) (t : ℕ) (p : SpendPolicy)
    → ((reserve id t p).0 ≡ p.next_reservation_id)
      × ((reserve id t p).1.global_spend ≡ p.global_spend ++ entry_of t p ∷ [])
      × ((reserve id t p).1.cfg ≡ p.cfg)
      × ((reserve id t p).1.next_reservation_id ≡ suc p.next_reservation_id)
unfolding reserve
reserve_lem id t p = (ground arith, ground arith, ground arith, ground arith)

abbrev pub pruned : ℕ → SpendPolicy → SpendPolicy
pruned t p = record p { global_spend = filter (live t p.cfg.spend_window_ms) p.global_spend }

-- The one thing that evaluate() may change.
pub evaluate_keeps :
    (id : SettleIdentity) (t : ℕ) (p : SpendPolicy)
    → ((evaluate id t p).1 ≡ p) ⊎ ((evaluate id t p).1 ≡ pruned t p)
unfolding evaluate
evaluate_keeps id t p = ground arith

-- What evaluate() has established when it finds no limit crossed.
pub evaluate_clear :
    (id : SettleIdentity) (t : ℕ) (p : SpendPolicy)
    → (evaluate id t p).0 ≡ none
    → ((evaluate id t p).1 ≡ pruned t p)
      × (live_spend t p + p.cfg.per_settle_estimate_stroops ≤ p.cfg.spend_ceiling_stroops)
unfolding evaluate
evaluate_clear id t p h = (ground arith, ground arith)

pub evaluate-cfg : (id : SettleIdentity) (t : ℕ) (p : SpendPolicy) → (evaluate id t p).1.cfg ≡ p.cfg
evaluate-cfg id t p = ground (arith, evaluate_keeps id t p)

pub evaluate-live_spend :
    (id : SettleIdentity) (t later : ℕ) (p : SpendPolicy)
    → t ≤ later
    → live_spend later (evaluate id t p).1 ≡ live_spend later p
evaluate-live_spend id t later p h = elim (evaluate_keeps id t p) [
  | inl e ↦ ap (live_spend later) e
  | inr e ↦
      ap (live_spend later) e
      ∙ ap sum_stroops (live_of_later t later p.cfg.spend_window_ms p.global_spend h)
]

-- A call of the store changes nothing in memory.
pub persist_keeps :
    (id at n : ℕ) (status : Status) (p : SpendPolicy)
    → ((persist id at n status p).global_spend ≡ p.global_spend)
      × ((persist id at n status p).cfg ≡ p.cfg)
      × ((persist id at n status p).next_reservation_id ≡ p.next_reservation_id)
      × ((persist id at n status p).per_pay_to ≡ p.per_pay_to)
      × ((persist id at n status p).per_url ≡ p.per_url)
      × ((persist id at n status p).unbound_pool ≡ p.unbound_pool)
unfolding persist
persist_keeps id at n status p =
    (ground arith, ground arith, ground arith, ground arith, ground arith, ground arith)

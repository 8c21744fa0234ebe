-- ===== src/Payability/Limiter/Drain.antt =====
-- src/payability.ts: every call that ConcurrencyLimiter queues is started once enough calls end.
use vellar_facilitator.Base.{
  ℕ, zero, suc, ◌+◌, ◌-◌, ◌<◌, ◌≡◌, refl, sym, ◌∙◌, ap, subst, List, [], ◌∷◌, ◌++◌, arith, ◌==◌,
  length, if_cases,
}
use vellar_facilitator.Payability.Limiter.{Limiter, idle, enter, wake, finish, go_on, continue}
use vellar_facilitator.Payability.Limiter.Order.{
  Turn, ends, turn, take_turns, called, IsOrderly, all_started, ends-IsOrderly,
  take_turns-IsOrderly, idle-IsOrderly,
}

-- The calls that have not ended.
abbrev pub load : Limiter → ℕ
load l = l.active + length l.queue

wake-load :
    (q : List ℕ) (l : Limiter) → l.queue ≡ q → l.woken ≡ [] → load (continue (wake q l)) ≡ load l
unfolding wake continue go_on enter
wake-load [] l e w = subst (λ v. load (go_on v l) ≡ load l) (sym w) refl
wake-load (i ∷ q) l e w =
    subst (λ v. load (go_on (v ++ i ∷ []) (record l { queue = q; woken = v ++ i ∷ [] })) ≡ load l)
      (sym w) (omega (arith, ap length e))

abbrev pub take_ends : ℕ → List Turn
take_ends zero = []
take_ends (suc n) = ends ∷ take_ends n

ends-load :
    (max : ℕ) (made : List ℕ) (l : Limiter)
    → 0 < max
    → IsOrderly max made l
    → load (continue (finish l)) ≡ load l - 1
unfolding finish continue go_on
ends-load max made l p h =
    if_cases (λ f. load (continue f) ≡ load l - 1) (l.active == 0)
      (λ none_runs.
        subst (λ v. load (go_on v l) ≡ load l - 1) (sym h.0) (ground (arith, none_runs, h.2, p)))
      (λ some_run.
        wake-load l.queue (record l { active = l.active - 1 }) refl h.0 ∙ ground (arith, some_run))

drained :
    (max n : ℕ) (made : List ℕ) (l : Limiter)
    → 0 < max
    → IsOrderly max made l
    → load l ≡ n
    → (load (take_turns max l (take_ends n)) ≡ 0)
      × ((take_turns max l (take_ends n)).started ++ (take_turns max l (take_ends n)).queue ≡ made)
unfolding take_turns turn
drained max zero made l p h e = (e, h.3)
drained max (suc n) made l p h e =
    drained max n made (continue (finish l)) p (ends-IsOrderly max made l p h)
      (ends-load max made l p h ∙ omega (arith, e))

no_load : (l : Limiter) → load l ≡ 0 → l.queue ≡ []
no_load l e = emptied l.queue (omega (arith, e))
  where
    emptied : (q : List ℕ) → length q ≡ 0 → q ≡ []
    emptied [] h = refl
    emptied (i ∷ q) h = absurd (omega (arith, h))

-- With every waiter going on before the next call is made, and a limit of one at least: once as many
-- calls end as run and wait, no call runs and every call that was made has been started, in order.
pub take_turns-drains :
    (max : ℕ) (ts : List Turn)
    → 0 < max
    → ((take_turns max (take_turns max idle ts) (take_ends (load (take_turns max idle ts)))).active
        ≡ 0)
      × ((take_turns max
            (take_turns max idle ts)
            (take_ends (load (take_turns max idle ts)))).started
          ≡ called ts)
take_turns-drains max ts p =
    let l = take_turns max idle ts in
    let d =
      drained max (load l) (called ts) l p
        (take_turns-IsOrderly max [] idle ts p (idle-IsOrderly max)) refl in
    (omega (arith, d.0), all_started (no_load (take_turns max l (take_ends (load l))) d.0) d.1)

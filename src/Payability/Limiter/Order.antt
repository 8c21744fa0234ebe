-- ===== src/Payability/Limiter/Order.antt =====
-- src/payability.ts: ConcurrencyLimiter, when every waiter goes on before the next call is made.
use vellar_facilitator.Base.{
  ℕ, suc, ◌-◌, ◌≤◌, ◌<◌, ◌≡◌, refl, sym, ◌∙◌, ap, subst, true, false, List, [], ◌∷◌, ◌++◌, arith,
  leb, ltb, ◌==◌, length, if_cases, leb→le,
}
use vellar_facilitator.Payability.Limiter.{
  Limiter, idle, enter, call, wake, finish, go_on, continue,
}
use mathlib.Core.List.{append_assoc, append-nil}

-- A call, or the end of one together with what it wakes.
pub data Turn : Type 0 where
  calls : ℕ → Turn
  ends : Turn

unfoldable pub turn : ℕ → Limiter → Turn → Limiter
turn max l (calls i) = call max i l
turn max l ends = continue (finish l)

unfoldable pub take_turns : ℕ → Limiter → List Turn → Limiter
take_turns max l [] = l
take_turns max l (t ∷ ts) = take_turns max (turn max l t) ts

abbrev pub called : List Turn → List ℕ
called [] = []
called (calls i ∷ ts) = i ∷ called ts
called (ends ∷ ts) = called ts

abbrev pub IsOrderly : ℕ → List ℕ → Limiter → Type 0
IsOrderly max made l =
    (l.woken ≡ [])
    × (l.active ≤ max)
    × (ltb 0 (length l.queue) ≡ true → l.active ≡ max)
    × (l.started ++ l.queue ≡ made)

-- Nobody waits while a slot is free.
empty_queue :
    (max active : ℕ) (queue : List ℕ)
    → (ltb 0 (length queue) ≡ true → active ≡ max)
    → leb max active ≡ false
    → queue ≡ []
empty_queue max active [] h free = refl
empty_queue max active (i ∷ q) h free = ground (arith, h (ground arith))

pub all_started :
    {started queue made : List ℕ} → queue ≡ [] → started ++ queue ≡ made → started ≡ made
all_started {started} e o = sym (append-nil started) ∙ ap (◌++◌ started) (sym e) ∙ o

call-IsOrderly :
    (max i : ℕ) (made : List ℕ) (l : Limiter)
    → IsOrderly max made l
    → IsOrderly max (made ++ i ∷ []) (call max i l)
unfolding call enter
call-IsOrderly max i made l h =
    if_cases (IsOrderly max (made ++ i ∷ [])) (leb max l.active)
      (λ full. (
        h.0,
        h.1,
        λ _. omega (arith, h.1, leb→le max l.active full),
        sym (append_assoc l.started l.queue (i ∷ [])) ∙ ap (λ m. m ++ i ∷ []) h.3,
      ))
      (λ free.
        let none_waits = empty_queue max l.active l.queue h.2 free in
        (
          h.0,
          ground arith,
          λ waits. ground (arith, waits, ap length none_waits),
          ap (◌++◌ (l.started ++ i ∷ [])) none_waits
              ∙ append-nil (l.started ++ i ∷ [])
              ∙ ap (λ m. m ++ i ∷ []) (all_started none_waits h.3),
        ))

wake-IsOrderly :
    (max : ℕ) (made : List ℕ) (q : List ℕ) (l : Limiter)
    → l.queue ≡ q
    → l.woken ≡ []
    → l.active < max
    → (ltb 0 (length l.queue) ≡ true → suc l.active ≡ max)
    → l.started ++ l.queue ≡ made
    → IsOrderly max made (continue (wake q l))
unfolding wake continue go_on enter
wake-IsOrderly max made [] l e w b h o =
    subst (λ v. IsOrderly max made (go_on v l)) (sym w)
      (w, omega (arith, b), λ waits. ground (arith, waits, ap length e), o)
wake-IsOrderly max made (i ∷ q) l e w b h o =
    subst
      (λ v. IsOrderly max made (go_on (v ++ i ∷ []) (record l { queue = q; woken = v ++ i ∷ [] })))
      (sym w)
      (
        refl,
        omega (arith, b),
        λ _. h (ground (arith, ap length e)),
        append_assoc l.started (i ∷ []) q ∙ ap (◌++◌ l.started) (sym e) ∙ o,
      )

pub ends-IsOrderly :
    (max : ℕ) (made : List ℕ) (l : Limiter)
    → 0 < max
    → IsOrderly max made l
    → IsOrderly max made (continue (finish l))
unfolding finish continue go_on
ends-IsOrderly max made l p h =
    if_cases (λ f. IsOrderly max made (continue f)) (l.active == 0)
      (λ none_runs. subst (λ v. IsOrderly max made (go_on v l)) (sym h.0) h)
      (λ some_run.
        wake-IsOrderly max made l.queue (record l { active = l.active - 1 }) refl h.0
          (ground (arith, h.1, some_run)) (λ q. ground (arith, h.2 q, some_run)) h.3)

pub take_turns-IsOrderly :
    (max : ℕ) (made : List ℕ) (l : Limiter) (ts : List Turn)
    → 0 < max
    → IsOrderly max made l
    → IsOrderly max (made ++ called ts) (take_turns max l ts)
unfolding take_turns turn
take_turns-IsOrderly max made l [] p h = subst (λ m. IsOrderly max m l) (sym (append-nil made)) h
take_turns-IsOrderly max made l (calls i ∷ ts) p h =
    subst (λ m. IsOrderly max m (take_turns max (call max i l) ts))
      (append_assoc made (i ∷ []) (called ts))
      (take_turns-IsOrderly max (made ++ i ∷ []) (call max i l) ts p
        (call-IsOrderly max i made l h))
take_turns-IsOrderly max made l (ends ∷ ts) p h =
    take_turns-IsOrderly max made (continue (finish l)) ts p (ends-IsOrderly max made l p h)

pub idle-IsOrderly : (max : ℕ) → IsOrderly max [] idle
idle-IsOrderly max = (refl, omega arith, λ waits. cc, refl)

-- If every waiter goes on before the next call is made, then for a limit of one at least: at most as
-- many calls run as the limit allows, exactly as many if a call waits, and the calls are started in
-- the order in which they were made, the rest of them waiting in that order.
pub take_turns-ordered :
    (max : ℕ) (ts : List Turn)
    → 0 < max
    → ((take_turns max idle ts).active ≤ max)
      × (ltb 0 (length (take_turns max idle ts).queue) ≡ true
          → (take_turns max idle ts).active ≡ max)
      × ((take_turns max idle ts).started ++ (take_turns max idle ts).queue ≡ called ts)
take_turns-ordered max ts p =
    let h = take_turns-IsOrderly max [] idle ts p (idle-IsOrderly max) in (h.1, h.2, h.3)

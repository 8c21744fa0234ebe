-- ===== src/Payability/Limiter/Overrun.antt =====
-- src/payability.ts: how many calls ConcurrencyLimiter lets run at once.
use vellar_facilitator.Base.{
  ℕ, suc, ◌+◌, ◌-◌, ◌≤◌, ◌≡◌, refl, true, List, [], ◌∷◌, arith, ltb, ◌==◌, length, length-append,
  if◌then◌else◌, ◌&&◌, if_cases,
}
use vellar_facilitator.Payability.Limiter.{
  Limiter, idle, enter, call, wake, finish, go_on, continue, Event, calls, finishes, continues,
  step, run,
}

-- The calls that start at once although a waiter was woken and has not gone on.
abbrev pub barges : ℕ → Limiter → Event → ℕ
barges max l (calls i) = if ltb l.active max && ltb 0 (length l.woken) then 1 else 0
barges max l finishes = 0
barges max l continues = 0

unfoldable pub barged : ℕ → Limiter → List Event → ℕ
barged max l [] = 0
barged max l (e ∷ es) = barges max l e + barged max (step max l e) es

abbrev pub IsBusy : ℕ → ℕ → Limiter → Type 0
IsBusy max extra l =
    (l.active + length l.woken ≤ max + extra)
    × (ltb 0 (length l.queue) ≡ true → max ≤ l.active + length l.woken)

wake-IsBusy :
    (max extra : ℕ) (q : List ℕ) (l : Limiter)
    → l.queue ≡ q
    → (suc l.active + length l.woken ≤ max + extra)
    → (ltb 0 (length l.queue) ≡ true → max ≤ suc l.active + length l.woken)
    → IsBusy max extra (wake q l)
unfolding wake
wake-IsBusy max extra [] l e h w = ground (arith, h)
wake-IsBusy max extra (i ∷ q) l e h w = ground (arith, length-append l.woken (i ∷ []), w)

go_on-IsBusy :
    (max extra : ℕ) (q : List ℕ) (l : Limiter)
    → l.woken ≡ q
    → IsBusy max extra l
    → IsBusy max extra (go_on q l)
unfolding go_on enter
go_on-IsBusy max extra [] l e h = h
go_on-IsBusy max extra (i ∷ q) l e h = ground (arith, h)

finish-IsBusy : (max extra : ℕ) (l : Limiter) → IsBusy max extra l → IsBusy max extra (finish l)
unfolding finish
finish-IsBusy max extra l h =
    if_cases (IsBusy max extra) (l.active == 0) (λ _. h)
      (λ some_run.
        wake-IsBusy max extra l.queue (record l { active = l.active - 1 }) refl
          (ground (arith, h, some_run)) (λ q. ground (arith, h.1 q, some_run)))

IsBusy-weaken : (max m n : ℕ) (l : Limiter) → m ≤ n → IsBusy max m l → IsBusy max n l
IsBusy-weaken max m n l le h = (omega (arith, h.0), h.1)

step-IsBusy :
    (max extra : ℕ) (l : Limiter) (e : Event)
    → IsBusy max extra l
    → IsBusy max (extra + barges max l e) (step max l e)
unfolding step call enter continue
step-IsBusy max extra l (calls i) h = ground (arith, h, length-append l.queue (i ∷ []))
step-IsBusy max extra l finishes h =
    IsBusy-weaken max extra (extra + 0) (finish l) (omega arith) (finish-IsBusy max extra l h)
step-IsBusy max extra l continues h =
    IsBusy-weaken max extra (extra + 0) (continue l) (omega arith)
      (go_on-IsBusy max extra l.woken l refl h)

run-IsBusy :
    (max extra : ℕ) (l : Limiter) (es : List Event)
    → IsBusy max extra l
    → IsBusy max (extra + barged max l es) (run max l es)
unfolding run barged
run-IsBusy max extra l [] h = IsBusy-weaken max extra (extra + 0) l (omega arith) h
run-IsBusy max extra l (e ∷ es) h =
    IsBusy-weaken max (extra + barges max l e + barged max (step max l e) es)
      (extra + (barges max l e + barged max (step max l e) es)) (run max (step max l e) es)
      (omega arith)
      (run-IsBusy max (extra + barges max l e) (step max l e) es (step-IsBusy max extra l e h))

-- In every history the calls that run, and the waiters that were woken, are at most the limit and one
-- more for each call that started at once while a woken waiter had not yet gone on. And no slot is left
-- free while a call waits: with a call in the queue they are at least as many as the limit.
pub run-bounded :
    (max : ℕ) (es : List Event)
    → ((run max idle es).active + length (run max idle es).woken ≤ max + barged max idle es)
      × (ltb 0 (length (run max idle es).queue) ≡ true
          → max ≤ (run max idle es).active + length (run max idle es).woken)
run-bounded max es =
    IsBusy-weaken max (0 + barged max idle es) (barged max idle es) (run max idle es) (omega arith)
      (run-IsBusy max 0 idle es (omega arith, λ q. cc))

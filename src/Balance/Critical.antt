-- ===== src/Balance/Critical.antt =====
-- src/balance.ts: when the guard refuses.
use vellar_facilitator.Base.{
  ℕ, ◌<◌, ◌≡◌, refl, sym, ap, ◌∙◌, ◌↔◌, false, Option, none, some, List, [], ◌∷◌, arith,
}
use vellar_facilitator.Balance.{
  BalanceStatus, unknown, Fetched, threw, not_finite, balance, Floors, BalanceGuard, create, allows,
  settle_allowed, status_of, Event, starts, stops, refreshed, step, run,
}

-- The last answer that came in, after one that may have come in before.
abbrev pub last_fetched : Option Fetched → List Event → Option Fetched
last_fetched before [] = before
last_fetched before (starts ∷ es) = last_fetched before es
last_fetched before (stops ∷ es) = last_fetched before es
last_fetched before (refreshed r ∷ es) = last_fetched (some r) es

abbrev status_after : Floors → Option Fetched → BalanceStatus
status_after f none = unknown
status_after f (some r) = status_of f r

run-status :
    (f : Floors) (es : List Event) (g : BalanceGuard) (before : Option Fetched)
    → g.current_status ≡ status_after f before
    → (run f es g).current_status ≡ status_after f (last_fetched before es)
unfolding run step
run-status f [] g before h = h
run-status f (starts ∷ es) g before h = run-status f es (step f starts g) before h
run-status f (stops ∷ es) g before h = run-status f es (step f stops g) before h
run-status f (refreshed r ∷ es) g before h = run-status f es (step f (refreshed r) g) (some r) refl

refused_iff :
    (f : Floors) (m : Option Fetched)
    → (allows (status_after f m) ≡ false) ↔ ((n : ℕ) × (m ≡ some (balance n)) × (n < f.hard))
unfolding status_of
refused_iff f none = (λ h. cc, λ h. cc h.1)
refused_iff f (some threw) = (λ h. cc, λ h. cc h.1)
refused_iff f (some not_finite) = (λ h. cc, λ h. cc h.1)
refused_iff f (some (balance n)) =
    (λ h. (n, refl, ground (arith, h)), λ h. ground (arith, h.1, h.2))

-- After any history of a fresh guard, whatever the order in which the answers of its checks come in, it
-- refuses a settle exactly if the last answer was a balance below the hard floor: a check that failed,
-- or read no number, lets settles through.
pub settle_allowed-eq-false_iff :
    (f : Floors) (es : List Event)
    → (settle_allowed (run f es create) ≡ false)
      ↔ ((n : ℕ) × (last_fetched none es ≡ some (balance n)) × (n < f.hard))
unfolding settle_allowed
settle_allowed-eq-false_iff f es =
    let iff = refused_iff f (last_fetched none es) in
    let same = ap allows (run-status f es create none refl) in
    (λ h. iff.0 (sym same ∙ h), λ h. same ∙ iff.1 h)

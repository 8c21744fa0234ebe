-- ===== src/Settle/Money.antt =====
-- src/server.ts: what /settle books of the sponsor's budget.
use vellar_facilitator.Base.{
  ℕ, ◌≤◌, ◌≡◌, refl, sym, ◌∙◌, ap, ◌⊎◌, Bool-cases, inl, inr, subst, Bool, true, false, not, ◌&&◌,
  Option, none, some, str_eq, if◌then◌else◌, if_cases,
}
use vellar_facilitator.Policy.{SpendPolicy, SettleVerdict, check_settle}
use vellar_facilitator.Pool.{ChannelPool}
use vellar_facilitator.Policy.Ceiling.{refused_consumes_nothing}
use vellar_facilitator.Policy.Adjust.{refund_unspent}
use vellar_facilitator.Policy.Spend.{live_spend}
use vellar_facilitator.Policy.Refund.{IsFresh, refund-check_settle, check_settle-reserves}
use vellar_facilitator.Settle
use vellar_facilitator.Settle.{
  Result, Attempt, Response, Request, Deployment, Shared, account, correct, is_unsubmitted,
  on_policy, conclude, perform, attempt_settle, consult, run_settle_pipeline,
}

-- The spend that counts at a time; without a policy there is none.
abbrev pub spend_of : ℕ → Option SpendPolicy → ℕ
spend_of later none = 0
spend_of later (some p) = live_spend later p

-- A request that ends with an exception, or with a result that was never submitted although the pool
-- was not exhausted.
abbrev pub IsFree : Bool → Option Result → Type 0
IsFree exhausted none = Unit
IsFree exhausted (some r) = (exhausted ≡ false) × (is_unsubmitted r ≡ true)

corrected :
    (reservation fee : Option ℕ) (ok empty : Bool) (p : SpendPolicy)
    → (not ok && empty) ≡ true
    → correct reservation
        (not empty)
        fee
        (if not ok && empty then refund_unspent reservation p else p)
      ≡ refund_unspent reservation p
corrected reservation fee true empty p h = cc
corrected reservation fee false true p h = refl
corrected reservation fee false false p h = cc

account-unsubmitted :
    (reservation : Option ℕ) (r : Result) (p : SpendPolicy)
    → is_unsubmitted r ≡ true
    → account reservation r p ≡ refund_unspent reservation p
unfolding account
account-unsubmitted reservation r p h =
    corrected reservation r.submitted_fee r.success (str_eq r.transaction "") p h

on_policy-ext :
    (f g : SpendPolicy → SpendPolicy) (m : Option SpendPolicy)
    → ((p : SpendPolicy) → f p ≡ g p)
    → on_policy f m ≡ on_policy g m
on_policy-ext f g none h = refl
on_policy-ext f g (some p) h = ap some (h p)

conclude-free :
    (d : Deployment) (req : Request) (reservation : Option ℕ) (exhausted : Bool) (s : Shared)
    (m : Option Result)
    → IsFree exhausted m
    → (conclude d req reservation exhausted s m).0.policy
      ≡ on_policy (refund_unspent reservation) s.policy
conclude-free d req reservation exhausted s none h = refl
conclude-free d req reservation true s (some r) h = cc
conclude-free d req reservation false s (some r) h =
    on_policy-ext (account reservation r) (refund_unspent reservation) s.policy
      (λ p. account-unsubmitted reservation r p h.1)

module _ (d : Deployment) (retry_max : ℕ) (script : ℕ → Attempt) (req : Request) where
  -- The calls of settle() for this request, on a pool.
  abbrev pub EndsFree : ChannelPool → Type 0
  EndsFree pool =
      let c = (attempt_settle retry_max script pool).1 in IsFree c.pool_exhausted c.result

  perform-free :
      (reservation : Option ℕ) (s : Shared)
      → EndsFree s.pool
      → (perform d retry_max script req reservation s).0.policy
        ≡ on_policy (refund_unspent reservation) s.policy
  unfolding perform
  perform-free reservation s h =
      let out = attempt_settle retry_max script s.pool in
      conclude-free d req reservation out.1.pool_exhausted
        (record s { pool = Settle.give_back out.1.acquired_address out.0 }) out.1.result h

  consult-free :
      (now later : ℕ) (s : Shared) (policy : Option SpendPolicy)
      → ((p : SpendPolicy) → policy ≡ some p → IsFresh p)
      → s.policy ≡ policy
      → now ≤ later
      → EndsFree s.pool
      → spend_of later (consult d retry_max script req now s policy).0.policy
        ≡ spend_of later policy
  consult-free now later s none fresh e le h =
      ap (spend_of later) (perform-free none s h ∙ ap (on_policy (refund_unspent none)) e)
  consult-free now later s (some p) fresh e le h = decided (Bool-cases checked.0.allowed)
    where
      checked : SettleVerdict × SpendPolicy
      checked = check_settle req.identity now p

      booked : Shared
      booked = record s { policy = some checked.1 }

      Spends : Shared × Response → Type 0
      Spends out = spend_of later out.0.policy ≡ live_spend later p

      decided :
          (checked.0.allowed ≡ true) ⊎ (checked.0.allowed ≡ false)
          → Spends (consult d retry_max script req now s (some p))
      decided (inl granted) =
          let token = check_settle-reserves req.identity now p granted in
          subst
            (λ b. Spends (
              if b
              then perform d retry_max script req checked.0.reservation booked
              else (booked, Settle.refused 503 (Settle.spend_policy checked.0.reason))))
            (sym granted)
            (ap (spend_of later) (perform-free checked.0.reservation booked h)
              ∙ ap (λ r. live_spend later (refund_unspent r checked.1)) token.1
              ∙ refund-check_settle req.identity now later token.0 p (fresh p refl) le token.1)
      decided (inr denied) =
          subst
            (λ b. Spends (
              if b
              then perform d retry_max script req checked.0.reservation booked
              else (booked, Settle.refused 503 (Settle.spend_policy checked.0.reason))))
            (sym denied) (refused_consumes_nothing req.identity now later p le denied).5

  -- A request whose calls of settle() end with an exception, or with a result that was never submitted
  -- while the pool is not exhausted, costs the budget nothing, also where a guard or the policy refuses
  -- it before: the spend that counts from then on is what it would be without the request. The ids of
  -- the entries that the policy holds are below the next id that it gives.
  pub run_settle_pipeline-free :
      (now later : ℕ) (s : Shared)
      → ((p : SpendPolicy) → s.policy ≡ some p → IsFresh p)
      → now ≤ later
      → EndsFree s.pool
      → spend_of later (run_settle_pipeline d retry_max script req now s).0.policy
        ≡ spend_of later s.policy
  unfolding run_settle_pipeline
  run_settle_pipeline-free now later s fresh le h =
      let P = λ (out : Shared × Response). spend_of later out.0.policy ≡ spend_of later s.policy in
      if_cases P (not req.has_body) (λ _. refl)
        (λ _.
          if_cases P (not req.is_parseable) (λ _. refl)
            (λ _.
              if_cases P d.is_paused (λ _. refl)
                (λ _.
                  if_cases P (not d.settle_allowed) (λ _. refl)
                    (λ _. consult-free now later s s.policy fresh refl le h))))

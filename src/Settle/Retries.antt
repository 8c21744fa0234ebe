-- ===== src/Settle/Retries.antt =====
-- src/server.ts: the calls of settle() against withSkewRetry of src/retry.ts.
use vellar_facilitator.Base.{
  ℕ, zero, suc, ◌+◌, ◌≡◌, refl, sym, ◌∙◌, ap, fun_ext, subst, Bool, true, false, Option, none, some,
  String, arith, if_cases, if◌then◌else◌,
}
use vellar_facilitator.Pool.{ChannelPool, acquire}
use vellar_facilitator.Retry.{is_skew, retry_loop, with_skew_retry}
use vellar_facilitator.Retry.Laws.{IsLastOf, with_skew_retry-IsLastOf}
use vellar_facilitator.Settle.{
  Result, Attempt, Captured, signed, capture, wants_retry, attempt_settle,
}

-- The reason that withSkewRetry reads; an exception has none, and is passed on.
abbrev pub reason_of : Option Result → Option String
reason_of none = none
reason_of (some r) = r.error_reason

signed-result :
    (m : Option Result) (p : ChannelPool) (a : Option (String × ChannelPool))
    → (signed m p a).1.result ≡ m
signed-result m p none = refl
signed-result none p (some (address, q)) = refl
signed-result (some r) p (some (address, q)) = refl

capture-result : (a : Attempt) (p : ChannelPool) → (capture a p).1.result ≡ a.result
unfolding capture
capture-result a p =
    if_cases (λ (o : ChannelPool × Captured). o.1.result ≡ a.result) a.selects_signer
      (λ _. signed-result a.result p (acquire p)) (λ _. refl)

wants-skew : (m : Option Result) → wants_retry m ≡ is_skew (reason_of m)
wants-skew none = refl
wants-skew (some r) = refl

module _ (script : ℕ → Attempt) where
  abbrev results : ℕ → Option Result
  results n = (script n).result

  branches :
      (b c : Bool) (x y : ChannelPool × Captured) (u v : Option Result × ℕ)
      → b ≡ c
      → x.1.result ≡ u.0
      → y.1.result ≡ v.0
      → (if b then x else y).1.result ≡ (if c then u else v).0
  branches true true x y u v e f g = f
  branches true false x y u v e f g = cc
  branches false true x y u v e f g = cc
  branches false false x y u v e f g = g

  -- From call `k` on.
  shifted :
      (left k : ℕ) (p : ChannelPool)
      → (attempt_settle left (λ n. script (n + k)) p).1.result
        ≡ (retry_loop results reason_of left (suc k) (results k)).0
  unfolding attempt_settle retry_loop
  shifted zero k p = capture-result (script (0 + k)) p ∙ ap (λ n. results n) (omega arith)
  shifted (suc left) k p =
      let first = capture (script (0 + k)) p in
      let same : first.1.result ≡ results k =
        capture-result (script (0 + k)) p ∙ ap (λ n. results n) (omega arith) in
      branches (wants_retry first.1.result) (is_skew (reason_of (results k)))
        (attempt_settle left (λ n. script (suc n + k)) first.0) first
        (retry_loop results reason_of left (suc (suc k)) (results (suc k))) (results k, suc k)
        (ap wants_retry same ∙ wants-skew (results k))
        (ap (λ f. (attempt_settle left f first.0).1.result) (fun_ext (λ n. ap script (omega arith)))
          ∙ shifted left (suc k) first.0)
        same

  -- What the calls of settle() for one request end with is what withSkewRetry makes of them: neither the
  -- channel accounts that they take nor the capture changes how often settle() is called again.
  pub attempt_settle-with_skew_retry :
      (retry_max : ℕ) (p : ChannelPool)
      → (attempt_settle retry_max script p).1.result
        ≡ (with_skew_retry results reason_of retry_max).0
  unfolding with_skew_retry
  attempt_settle-with_skew_retry retry_max p =
      ap (λ f. (attempt_settle retry_max f p).1.result) (fun_ext (λ n. ap script (omega arith)))
      ∙ shifted retry_max 0 p

  -- The calls of settle() for one request end with the result of the last of at most `retry_max` + 1
  -- calls: every earlier one was rejected for ledger skew, and the last one was not, or the retries were
  -- used up. An exception ends them. The channel accounts that the calls take change nothing of this.
  pub attempt_settle-IsLastOf :
      (retry_max : ℕ) (p : ChannelPool)
      → (calls : ℕ) × IsLastOf results reason_of retry_max
          (attempt_settle retry_max script p).1.result
          calls
  attempt_settle-IsLastOf retry_max p =
      let out = with_skew_retry results reason_of retry_max in
      (
        out.1,
        subst (λ m. IsLastOf results reason_of retry_max m out.1)
            (sym (attempt_settle-with_skew_retry retry_max p))
            (with_skew_retry-IsLastOf results reason_of retry_max),
      )

-- ===== src/Retry/Laws.antt =====
-- What a retried operation returns, and how often it was called.
use vellar_facilitator.Base.{
  ℕ, zero, suc, ◌+◌, ◌≤◌, ◌<◌, ◌≡◌, ◌⊎◌, inl, inr, refl, String, true, false, Option, arith,
  Bool-cases, subst, dec_lt,
}
use vellar_facilitator.Retry.{is_skew, retry_loop, with_skew_retry}

module _ {ℓ} {T : Type ℓ} (op : ℕ → T) (reason_of : T → Option String) where
  -- `n` calls were made in all, the last gave `r`, and each before it was turned down for skew.
  pub record IsLastOf (retry_max : ℕ) (r : T) (n : ℕ) : Type ℓ where
    pub last : ℕ
    pub counted : n ≡ suc last
    pub given : r ≡ op last
    pub bounded : last ≤ retry_max
    pub earlier : (i : ℕ) → i < last → is_skew (reason_of (op i)) ≡ true
    pub stopped : (is_skew (reason_of r) ≡ false) ⊎ (last ≡ retry_max)

  retry_loop-IsLastOf :
      (left k : ℕ)
      → ((i : ℕ) → i < k → is_skew (reason_of (op i)) ≡ true)
      → let out = retry_loop op reason_of left (suc k) (op k) in IsLastOf (left + k) out.0 out.1
  unfolding retry_loop
  retry_loop-IsLastOf zero k before = record {
    last = k;
    counted = refl;
    given = refl;
    bounded = omega arith;
    earlier = before;
    stopped = inr (omega arith);
  }
  retry_loop-IsLastOf (suc left) k before = elim (Bool-cases (is_skew (reason_of (op k)))) [
    | inl skew ↦ rw skew (
        subst
          (λ m.
            let out = retry_loop op reason_of left (suc (suc k)) (op (suc k)) in
            IsLastOf m out.0 out.1)
          (omega arith)
          (retry_loop-IsLastOf left (suc k) (λ i h. elim (dec_lt i k) [
            | yes p ↦ before i p
            | no p ↦ subst (λ j. is_skew (reason_of (op j)) ≡ true) (omega arith) skew
          ])))
    | inr other ↦ rw other (record {
      last = k;
      counted = refl;
      given = refl;
      bounded = omega arith;
      earlier = before;
      stopped = inl other;
    })
  ]

  -- A retried operation is called at most one time more than the limit says; the result is that of
  -- its last call, every earlier call was turned down for ledger skew, and it stops early only at a
  -- result that is not.
  pub with_skew_retry-IsLastOf :
      (retry_max : ℕ)
      → let out = with_skew_retry op reason_of retry_max in IsLastOf retry_max out.0 out.1
  unfolding with_skew_retry
  with_skew_retry-IsLastOf retry_max =
      subst (λ m. let out = retry_loop op reason_of retry_max 1 (op 0) in IsLastOf m out.0 out.1)
        (omega arith) (retry_loop-IsLastOf retry_max 0 (λ i h. elim h [ ]))

-- ===== src/Submit/Laws.antt =====
-- When a transaction is submitted again.
use vellar_facilitator.Base.{
  ℕ, zero, suc, ◌+◌, ◌≤◌, ◌<◌, ◌≡◌, ◌⊎◌, inl, inr, refl, String, true, false, none, some, arith,
  Bool-cases, Option-cases, subst, dec_lt,
}
use vellar_facilitator.Submit.{
  Rpc, SendResult, SendStatus, duplicate, TxStatus, success, failed, not_found, unrecognised,
  unchecked, check_already_landed, is_try_again, is_duplicate, submit_loop, send_transaction,
}

module _ (rpc : Rpc) (hash : String) where
  -- The `i`-th answer was TRY_AGAIN_LATER, and the look after it did not find the transaction on the
  -- ledger.
  abbrev pub IsCleared : ℕ → Type 0
  IsCleared i =
      (is_try_again (rpc.send i).status ≡ true)
      × (check_already_landed (rpc.look (suc i)) hash ≡ none)

  -- What a wrapped submission did: `n` submissions with the result `r`.
  pub record IsOutcomeOf (retry_max : ℕ) (r : SendResult) (n : ℕ) : Type 0 where
    pub last : ℕ
    pub counted : n ≡ suc last
    pub bounded : last ≤ retry_max
    pub cleared : (i : ℕ) → i < last → IsCleared i
    pub given :
        (r ≡ rpc.send last)
        ⊎ ((is_try_again (rpc.send last).status ≡ true)
            × (check_already_landed (rpc.look (suc last)) hash ≡ some r))
    pub exhausted : (is_try_again r.status ≡ false) ⊎ (last ≡ retry_max)

  landed-pending :
      (s : TxStatus) (r : SendResult)
      → check_already_landed s hash ≡ some r
      → (is_try_again r.status ≡ false) × (r.hash ≡ hash)
  unfolding check_already_landed
  landed-pending success r e = (ground arith, ground arith)
  landed-pending failed r e = (ground arith, ground arith)
  landed-pending not_found r e = cc
  landed-pending unrecognised r e = cc
  landed-pending unchecked r e = cc

  module _ (k : ℕ) (before : (i : ℕ) → i < k → IsCleared i) where
    one-IsOutcomeOf :
        (m : ℕ) (r : SendResult)
        → k ≤ m
        → (r ≡ rpc.send k)
          ⊎ ((is_try_again (rpc.send k).status ≡ true)
              × (check_already_landed (rpc.look (suc k)) hash ≡ some r))
        → (is_try_again r.status ≡ false) ⊎ (k ≡ m)
        → IsOutcomeOf m r (suc k)
    one-IsOutcomeOf m r h given exhausted = record {
      last = k;
      counted = refl;
      bounded = h;
      cleared = before;
      given = given;
      exhausted = exhausted;
    }

    before_next : IsCleared k → (i : ℕ) → i < suc k → IsCleared i
    before_next now i h = elim (dec_lt i k) [
      | yes p ↦ before i p
      | no p ↦ subst IsCleared (omega arith) now
    ]

  duplicate-final : (s : SendStatus) → is_duplicate s ≡ true → is_try_again s ≡ false
  duplicate-final duplicate h = refl
  duplicate-final s h = ground arith

  submit_loop-IsOutcomeOf :
      (left k : ℕ)
      → ((i : ℕ) → i < k → IsCleared i)
      → let out = submit_loop rpc hash left (suc k) (rpc.send k) in
        IsOutcomeOf (left + k) out.0 out.1
  unfolding submit_loop
  submit_loop-IsOutcomeOf zero k before =
      one-IsOutcomeOf k before (0 + k) (rpc.send k) (omega arith) (inl refl) (inr (omega arith))
  submit_loop-IsOutcomeOf (suc left) k before =
      elim (Bool-cases (is_try_again (rpc.send k).status)) [
        | inr final ↦ rw final (
            one-IsOutcomeOf k before (suc left + k) (rpc.send k) (omega arith) (inl refl)
              (inl final))
        | inl again ↦ rw again (elim (Option-cases (check_already_landed (rpc.look (suc k)) hash)) [
          | inr (r, landed) ↦ rw landed (
              one-IsOutcomeOf k before (suc left + k) r (omega arith) (inr (again, landed))
                (inl (landed-pending (rpc.look (suc k)) r landed).0))
          | inl clear ↦
              let earlier = before_next k before (again, clear) in
              rw clear (elim (Bool-cases (is_duplicate (rpc.send (suc k)).status)) [
                | inl twin ↦ rw twin (
                    one-IsOutcomeOf (suc k) earlier (suc left + k) (rpc.send (suc k)) (omega arith)
                      (inl refl) (inl (duplicate-final (rpc.send (suc k)).status twin)))
                | inr single ↦ rw single (
                    subst
                      (λ m.
                        let out = submit_loop rpc hash left (suc (suc k)) (rpc.send (suc k)) in
                        IsOutcomeOf m out.0 out.1)
                      (omega arith) (submit_loop-IsOutcomeOf left (suc k) earlier))
              ])
        ])
      ]

  -- A wrapped submission sends the transaction at most one time more than the limit says. It sends
  -- it again only after TRY_AGAIN_LATER and a look that did not find it landed; its result is the
  -- last answer, or the landed transaction's; and TRY_AGAIN_LATER is its result only when the
  -- retries are used up.
  pub send_transaction-IsOutcomeOf :
      (retry_max : ℕ)
      → let out = send_transaction rpc hash retry_max in IsOutcomeOf retry_max out.0 out.1
  unfolding send_transaction
  send_transaction-IsOutcomeOf retry_max =
      subst
        (λ m. let out = submit_loop rpc hash retry_max 1 (rpc.send 0) in IsOutcomeOf m out.0 out.1)
        (omega arith) (submit_loop-IsOutcomeOf retry_max 0 (λ i h. elim h [ ]))

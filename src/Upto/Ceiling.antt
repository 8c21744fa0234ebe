-- ===== src/Upto/Ceiling.antt =====
-- src/upto.ts: what a settled payment is bound by.
use vellar_facilitator.Base.{
  ℕ, zero, suc, ◌≡◌, ◌≢◌, ◌<◌, refl, false, Option, none, some, List, [], ◌∷◌, arith, length,
  get_elem?, Bool-cases, inl, inr, ap, sym, ◌∙◌, ◌==◌, Option-cases, subst,
}
use vellar_facilitator.Base.Text.{codes}
use vellar_facilitator.Base.Table.{Text}
use vellar_facilitator.Upto.{
  ℤ, is_negative, exceeds, integer, Operation, Checked, passed, rejected, threw, Requirements, Sdk,
  ParsedSettle, check_operation, check_operations, parse_and_validate, bound_actual, actual_for,
  set_elem, set_actual, TxStatus, success, failed, not_found, Server, rebuilt, build_and_simulate,
  Settlement, Invocation, invoke_host_function, confirm, next_look, submit, settle_actual,
  settle_parsed, settle,
}
use vellar_facilitator.Upto.Signed.{IsSigned, check_operation-IsSigned}

module _ {ℓ} {A : Type ℓ} where
  set_elem-same :
      (i : ℕ) (x : A) (xs : List A) → i < length xs → get_elem? (set_elem i x xs) i ≡ some x
  unfolding set_elem
  set_elem-same i x [] h = absurd (omega (arith, h))
  set_elem-same zero x (y ∷ ys) h = refl
  set_elem-same (suc i) x (y ∷ ys) h = set_elem-same i x ys (omega (arith, h))

  set_elem-other :
      (i j : ℕ) (x : A) (xs : List A) → j ≢ i → get_elem? (set_elem i x xs) j ≡ get_elem? xs j
  unfolding set_elem
  set_elem-other i j x [] n = refl
  set_elem-other zero zero x (y ∷ ys) n = absurd (n refl)
  set_elem-other zero (suc j) x (y ∷ ys) n = refl
  set_elem-other (suc i) zero x (y ∷ ys) n = refl
  set_elem-other (suc i) (suc j) x (y ∷ ys) n = set_elem-other i j x ys (λ e. n (ap (λ k. suc k) e))

-- A settlement within what the transaction carried: the submitted operation is one call of `settle` of
-- the same contract with the same authorization entries and the same arguments but for the actual
-- amount, which is not negative and not above the signed ceiling.
pub record IsWithinSigned (sdk : Sdk) (contract_id : Text) (r : Requirements) (ops : List Operation)
    (s : Settlement) : Type 0 where
  pub parsed : ParsedSettle
  pub signed : IsSigned sdk contract_id r ops parsed
  pub not_negative : is_negative s.amount ≡ false
  pub within_ceiling : exceeds s.amount parsed.max ≡ false
  pub paid_by : s.payer ≡ parsed.payer
  pub sent : Invocation
  pub submitted_call : s.submitted ≡ invoke_host_function (some sent) parsed.auth
  pub same_contract : sent.contract_address ≡ signed.call.contract_address
  pub same_function : sent.function_name ≡ signed.call.function_name
  pub as_named : get_elem? sent.args 6 ≡ some (integer s.amount)
  pub otherwise_signed : (i : ℕ) → i ≢ 6 → get_elem? sent.args i ≡ get_elem? signed.call.args i

confirm-same :
    (look : ℕ → TxStatus) (left i : ℕ) (s t : Settlement) → confirm look left i s ≡ passed t → s ≡ t
unfolding confirm next_look
confirm-same look zero i s t e = cc
confirm-same look (suc left) i s t e = by_status (look i) (confirm-same look left (suc i) s t) e
  where
    by_status :
        (status : TxStatus)
        → (confirm look left (suc i) s ≡ passed t → s ≡ t)
        → next_look s status (confirm look left (suc i) s) ≡ passed t
        → s ≡ t
    by_status success later e = cc
    by_status failed later e = cc
    by_status not_found later e = later e

bound_actual-within :
    (n : Option ℤ) (max actual : ℤ)
    → bound_actual n max ≡ passed actual
    → (is_negative actual ≡ false) × (exceeds actual max ≡ false)
unfolding bound_actual
bound_actual-within none max actual e = cc
bound_actual-within (some n) max actual e = (ground (arith, e), ground (arith, e))

actual_for-within :
    (sdk : Sdk) (r : Requirements) (max actual : ℤ)
    → actual_for sdk r max ≡ passed actual
    → (is_negative actual ≡ false) × (exceeds actual max ≡ false)
unfolding actual_for
actual_for-within sdk r max actual e = elim (Option-cases r.actual_amount) [
  | inl absent ↦ bound_actual-within (some max) max actual (ground (arith, e, absent))
  | inr (raw, named) ↦ bound_actual-within (sdk.big_int raw) max actual (ground (arith, e, named))
]

build_and_simulate-rebuilt :
    (server : Server) (contract_id : Text) (max_fee : ℕ) (p : ParsedSettle) (actual : ℤ)
    (op : Operation)
    → build_and_simulate server contract_id max_fee p actual ≡ passed op
    → op ≡ rebuilt contract_id p actual
unfolding build_and_simulate
build_and_simulate-rebuilt server contract_id max_fee p actual op e =
    elim (Option-cases (server.simulate (rebuilt contract_id p actual))) [
      | inl error ↦ ground (arith, e, error)
      | inr (fee, simulated) ↦ ground (arith, e, simulated)
    ]

submit-within :
    (server : Server) (p : ParsedSettle) (actual : ℤ) (built : Checked Operation) (s : Settlement)
    → submit server p actual built ≡ passed s
    → (op : Operation) × ((built ≡ passed op)
        × (record { payer = p.payer; amount = actual; submitted = op } ≡ s))
unfolding submit
submit-within server p actual threw s e = cc
submit-within server p actual (rejected reason) s e = cc
submit-within server p actual (passed op) s e = elim (Bool-cases (server.is_pending op)) [
  | inr refused ↦ ground (arith, e, refused)
  | inl pending ↦ (
    op,
    (
      refl,
      confirm-same server.get_transaction 20 0
          (record { payer = p.payer; amount = actual; submitted = op }) s
          (ground (arith, e, pending)),
    ),
  )
]

settle_actual-within :
    (sdk : Sdk) (server : Server) (contract_id : Text) (max_fee : ℕ) (r : Requirements)
    (ops : List Operation) (p : ParsedSettle) (actual : Checked ℤ) (s : Settlement)
    → IsSigned sdk contract_id r ops p
    → actual_for sdk r p.max ≡ actual
    → settle_actual server contract_id max_fee p actual ≡ passed s
    → IsWithinSigned sdk contract_id r ops s
unfolding settle_actual rebuilt
settle_actual-within sdk server contract_id max_fee r ops p threw s signed h e = cc
settle_actual-within sdk server contract_id max_fee r ops p (rejected reason) s signed h e = cc
settle_actual-within sdk server contract_id max_fee r ops p (passed actual) s signed h e =
    let built = build_and_simulate server contract_id max_fee p actual in
    let sent = submit-within server p actual built s e in
    let bounds = actual_for-within sdk r p.max actual h in
    let amount_is : actual ≡ s.amount = ap (λ x. x.amount) sent.1.1 in
    let sent_op : rebuilt contract_id p actual ≡ s.submitted =
      sym (build_and_simulate-rebuilt server contract_id max_fee p actual sent.0 sent.1.0)
      ∙ ap (λ x. x.submitted) sent.1.1 in
    record {
      parsed = p;
      signed = signed;
      not_negative = subst (λ n. is_negative n ≡ false) amount_is bounds.0;
      within_ceiling = subst (λ n. exceeds n p.max ≡ false) amount_is bounds.1;
      paid_by = sym (ap (λ x. x.payer) sent.1.1);
      sent = record {
        contract_address = contract_id;
        function_name = codes "settle";
        args = set_actual actual p.args;
      };
      submitted_call = sym sent_op;
      same_contract = sym signed.our_contract;
      same_function = sym signed.our_function;
      as_named =
          set_elem-same 6 (integer actual) p.args (omega (arith, signed.seven))
          ∙ ap (λ n. some (integer n)) amount_is;
      otherwise_signed = λ i n.
          set_elem-other 6 i (integer actual) p.args n
          ∙ ap (λ l. get_elem? l i) (sym signed.as_signed);
    }

settle_parsed-within :
    (sdk : Sdk) (server : Server) (contract_id : Text) (max_fee : ℕ) (r : Requirements)
    (op : Operation) (parsed : Checked ParsedSettle) (s : Settlement)
    → check_operation sdk contract_id r op ≡ parsed
    → settle_parsed sdk server contract_id max_fee r parsed ≡ passed s
    → IsWithinSigned sdk contract_id r (op ∷ []) s
unfolding settle_parsed
settle_parsed-within sdk server contract_id max_fee r op threw s h e = cc
settle_parsed-within sdk server contract_id max_fee r op (rejected reason) s h e = cc
settle_parsed-within sdk server contract_id max_fee r op (passed p) s h e =
    settle_actual-within sdk server contract_id max_fee r (op ∷ []) p (actual_for sdk r p.max) s
      (check_operation-IsSigned sdk contract_id r op p h) refl e

decoded-within :
    (sdk : Sdk) (server : Server) (contract_id : Text) (max_fee : ℕ) (r : Requirements)
    (decoded : Option (List Operation)) (s : Settlement)
    → settle_parsed sdk server contract_id max_fee r (check_operations sdk contract_id r decoded)
      ≡ passed s
    → (ops : List Operation) × ((decoded ≡ some ops) × IsWithinSigned sdk contract_id r ops s)
unfolding settle_parsed check_operations
decoded-within sdk server contract_id max_fee r none s e = cc
decoded-within sdk server contract_id max_fee r (some []) s e = cc
decoded-within sdk server contract_id max_fee r (some (op ∷ next ∷ ops)) s e = cc
decoded-within sdk server contract_id max_fee r (some (op ∷ [])) s e = (
  op ∷ [],
  (
    refl,
    settle_parsed-within sdk server contract_id max_fee r op (check_operation sdk contract_id r op)
        s refl e,
  ),
)

-- An upto settlement that succeeds comes of a transaction that is one call of `settle` of the
-- facilitator's contract, with the asset and payee of the requirements, with their amount as the
-- ceiling, and with some authorization entry; who signed those entries, and for what, is left to the
-- contract. What was submitted is one call of the same function of the same contract with the same
-- authorization entries, and with the same arguments but for the actual amount, which is neither
-- negative nor above the ceiling and is the amount reported.
pub settle-IsWithinSigned :
    (sdk : Sdk) (server : Server) (contract_id : Text) (max_fee : ℕ) (transaction : Text)
    (r : Requirements) (s : Settlement)
    → settle sdk server contract_id max_fee (some transaction) r ≡ passed s
    → (ops : List Operation) × ((sdk.operations_of transaction ≡ some ops)
        × IsWithinSigned sdk contract_id r ops s)
unfolding settle settle_parsed parse_and_validate
settle-IsWithinSigned sdk server contract_id max_fee transaction r s e =
    elim (Bool-cases (length transaction == 0)) [
      | inl empty ↦ absurd (ground (arith, e, empty))
      | inr given ↦
          decoded-within sdk server contract_id max_fee r (sdk.operations_of transaction) s
            (rw given at e)
    ]

-- ===== src/Upto/Signed.antt =====
-- src/upto.ts: what parseAndValidate lets pass.
use vellar_facilitator.Base.{
  ℕ, ◌≡◌, ◌≢◌, refl, true, false, Option, none, some, List, [], ◌∷◌, arith, length, get_elem?,
  Bool-cases, inl, inr, ap, sym, ◌∙◌, ◌==◌, ==_iff, subst,
}
use vellar_facilitator.Base.Text.{codes, same_text, same_text_iff}
use vellar_facilitator.Base.Table.{Text}
use vellar_facilitator.Upto.{
  ℤ, pos, negsuc, same_integer, ScVal, address, integer, other, Invocation, Operation,
  invoke_host_function, other_operation, passed, Requirements, Sdk, ParsedSettle, check_ceiling,
  address_of, check_fields, check_args, check_operation, is_amount, settle_arg_count,
}

same_integer-eq : (m n : ℤ) → same_integer m n ≡ true → m ≡ n
same_integer-eq (pos m) (pos n) h = ap (λ k. pos k) ((==_iff m n).0 h)
same_integer-eq (pos m) (negsuc n) h = cc
same_integer-eq (negsuc m) (pos n) h = cc
same_integer-eq (negsuc m) (negsuc n) h = ap (λ k. negsuc k) ((==_iff m n).0 h)

-- What a transaction that passes carries: one operation, which calls `settle` of the contract with the
-- asset and the payee of the requirements and with their amount as the ceiling, and which has some
-- authorization entry.
pub record IsSigned (sdk : Sdk) (contract_id : Text) (r : Requirements) (ops : List Operation)
    (p : ParsedSettle) : Type 0 where
  pub call : Invocation
  pub only_operation : ops ≡ invoke_host_function (some call) p.auth ∷ []
  pub our_contract : call.contract_address ≡ contract_id
  pub our_function : call.function_name ≡ codes "settle"
  pub as_signed : call.args ≡ p.args
  pub seven : length p.args ≡ settle_arg_count
  pub of_asset : get_elem? p.args 0 ≡ some (address r.asset)
  pub of_payer : get_elem? p.args 1 ≡ some (address p.payer)
  pub to_payee : get_elem? p.args 2 ≡ some (address r.pay_to)
  pub up_to_max : get_elem? p.args 3 ≡ some (integer p.max)
  pub ceiling : sdk.big_int r.amount ≡ some p.max
  pub authorized : p.auth ≢ []

-- What check_ceiling lets pass.
record Ceiled (sdk : Sdk) (r : Requirements) (auth : List Text) (args : List ScVal) (payer : Text)
    (max : ScVal) (p : ParsedSettle) : Type 0 where
  same_auth : p.auth ≡ auth
  same_args : p.args ≡ args
  same_payer : p.payer ≡ payer
  amount : sdk.big_int r.amount ≡ some p.max
  value : max ≡ integer p.max
  some_auth : auth ≢ []

check_ceiling-Ceiled :
    (sdk : Sdk) (r : Requirements) (auth : List Text) (args : List ScVal) (payer : Text)
    (max : ScVal) (n : Option ℤ) (p : ParsedSettle)
    → sdk.big_int r.amount ≡ n
    → check_ceiling (is_amount n max) auth args payer max ≡ passed p
    → Ceiled sdk r auth args payer max p
unfolding check_ceiling
check_ceiling-Ceiled sdk r auth args payer max none p h e = cc
check_ceiling-Ceiled sdk r auth args payer (address a) (some n) p h e = cc
check_ceiling-Ceiled sdk r auth args payer (other v) (some n) p h e = cc
check_ceiling-Ceiled sdk r auth args payer (integer m) (some n) p h e =
    elim (Bool-cases (same_integer m n)) [
      | inr differs ↦ absurd (
          refused auth (
            subst (λ b. check_ceiling (passed b) auth args payer (integer m) ≡ passed p) differs e))
      | inl same ↦
          go auth (same_integer-eq m n same)
            (subst (λ b. check_ceiling (passed b) auth args payer (integer m) ≡ passed p) same e)
    ]
  where
    refused :
        (auth : List Text) → check_ceiling (passed false) auth args payer (integer m) ≡ passed p → ⊥
    refused auth e = cc

    go :
        (auth : List Text)
        → m ≡ n
        → check_ceiling (passed true) auth args payer (integer m) ≡ passed p
        → Ceiled sdk r auth args payer (integer m) p
    go [] q e = cc
    go (a ∷ auth) q e = record {
      same_auth = cc;
      same_args = cc;
      same_payer = cc;
      amount = ground (arith, h, q, e);
      value = ground (arith, q, e);
      some_auth = λ z. cc;
    }

address_of-some : (v : Option ScVal) (t : Text) → address_of v ≡ some t → v ≡ some (address t)
unfolding address_of
address_of-some none t e = cc
address_of-some (some (address s)) t e = cc
address_of-some (some (integer n)) t e = cc
address_of-some (some (other v)) t e = cc

-- What check_args lets pass.
record Fielded (sdk : Sdk) (r : Requirements) (auth : List Text) (args : List ScVal)
    (p : ParsedSettle) : Type 0 where
  token : address_of (get_elem? args 0) ≡ some r.asset
  payee : address_of (get_elem? args 2) ≡ some r.pay_to
  from : Text
  max : ScVal
  sender : address_of (get_elem? args 1) ≡ some from
  fourth : get_elem? args 3 ≡ some max
  ceiled : Ceiled sdk r auth args from max p

check_fields-Fielded :
    (sdk : Sdk) (r : Requirements) (auth : List Text) (args : List ScVal) (p : ParsedSettle)
    (token payer to : Option Text) (max : Option ScVal)
    → address_of (get_elem? args 0) ≡ token
    → address_of (get_elem? args 1) ≡ payer
    → address_of (get_elem? args 2) ≡ to
    → get_elem? args 3 ≡ max
    → check_fields sdk r auth args token payer to max ≡ passed p
    → Fielded sdk r auth args p
unfolding check_fields
check_fields-Fielded sdk r auth args p none payer to max a b c d e = cc
check_fields-Fielded sdk r auth args p (some t) none to max a b c d e = cc
check_fields-Fielded sdk r auth args p (some t) (some f) none max a b c d e = cc
check_fields-Fielded sdk r auth args p (some t) (some f) (some u) none a b c d e = cc
check_fields-Fielded sdk r auth args p (some t) (some f) (some u) (some m) a b c d e =
    elim (Bool-cases (same_text t r.asset)) [
      | inr h ↦ ground (arith, e, h)
      | inl h ↦ elim (Bool-cases (same_text u r.pay_to)) [
        | inr i ↦ ground (arith, e, h, i)
        | inl i ↦ record {
          token = ground (arith, a, h, same_text_iff t r.asset);
          payee = ground (arith, c, i, same_text_iff u r.pay_to);
          from = f;
          max = m;
          sender = b;
          fourth = d;
          ceiled =
              check_ceiling-Ceiled sdk r auth args f m (sdk.big_int r.amount) p refl
                (ground (arith, e, h, i));
        }
      ]
    ]

pub check_operation-IsSigned :
    (sdk : Sdk) (contract_id : Text) (r : Requirements) (op : Operation) (p : ParsedSettle)
    → check_operation sdk contract_id r op ≡ passed p
    → IsSigned sdk contract_id r (op ∷ []) p
unfolding check_operation check_args
check_operation-IsSigned sdk contract_id r other_operation p e = cc
check_operation-IsSigned sdk contract_id r (invoke_host_function none auth) p e = cc
check_operation-IsSigned sdk contract_id r (invoke_host_function (some ic) auth) p e =
    elim (Bool-cases (same_text ic.contract_address contract_id)) [
      | inr h ↦ absurd (ground (arith, e, h))
      | inl h ↦ elim (Bool-cases (same_text ic.function_name (codes "settle"))) [
        | inr i ↦ absurd (ground (arith, e, h, i))
        | inl i ↦ elim (Bool-cases (length ic.args == settle_arg_count)) [
          | inr j ↦ absurd (ground (arith, e, h, i, j))
          | inl j ↦ signed h i j (
              check_fields-Fielded sdk r auth ic.args p (address_of (get_elem? ic.args 0))
                (address_of (get_elem? ic.args 1)) (address_of (get_elem? ic.args 2))
                (get_elem? ic.args 3) refl refl refl refl (ground (arith, e, h, i, j)))
        ]
      ]
    ]
  where
    signed :
        same_text ic.contract_address contract_id ≡ true
        → same_text ic.function_name (codes "settle") ≡ true
        → (length ic.args == settle_arg_count) ≡ true
        → Fielded sdk r auth ic.args p
        → IsSigned sdk contract_id r (invoke_host_function (some ic) auth ∷ []) p
    signed h i j f =
        let args = f.ceiled.same_args in
        let at = λ (n : ℕ). ap (λ l. get_elem? l n) args in
        record {
          call = ic;
          only_operation = ap (λ a. invoke_host_function (some ic) a ∷ []) (sym f.ceiled.same_auth);
          our_contract = (same_text_iff ic.contract_address contract_id).0 h;
          our_function = (same_text_iff ic.function_name (codes "settle")).0 i;
          as_signed = sym args;
          seven = ap (λ l. length l) args ∙ (==_iff (length ic.args) settle_arg_count).0 j;
          of_asset = at 0 ∙ address_of-some (get_elem? ic.args 0) r.asset f.token;
          of_payer =
              at 1
              ∙ (address_of-some (get_elem? ic.args 1) f.from f.sender
                  ∙ ap (λ t. some (address t)) (sym f.ceiled.same_payer));
          to_payee = at 2 ∙ address_of-some (get_elem? ic.args 2) r.pay_to f.payee;
          up_to_max = at 3 ∙ (f.fourth ∙ ap (λ v. some v) f.ceiled.value);
          ceiling = f.ceiled.amount;
          authorized = λ none_left. f.ceiled.some_auth (sym f.ceiled.same_auth ∙ none_left);
        }

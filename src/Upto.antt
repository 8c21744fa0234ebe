-- ===== src/Upto.antt =====
-- src/upto.ts: UptoStellarScheme, the scheme in which the buyer signs a ceiling and the seller names
-- the actual amount. Parameters are the SDK's decoding of a transaction, `BigInt()` on a text, and the
-- RPC server's simulation, submission and statuses. `threw` is the exception of a `BigInt()` outside
-- of a `try`; an exception of the RPC server, which ends the method in the same way, is left out.
pub mod Signed
pub mod Ceiling
mod Tests
use vellar_facilitator.Base.{
  ℕ, zero, suc, ◌+◌, Bool, true, false, not, ◌&&◌, ◌||◌, Option, none, some, List, [], ◌∷◌, ltb,
  leb, ◌==◌, length, get_elem?, if◌then◌else◌,
}
use vellar_facilitator.Base.Text.{codes, same_text}
use vellar_facilitator.Base.Table.{Text}

-- A `bigint`.
pub data ℤ : Type 0 where
  pos negsuc : ℕ → ℤ

abbrev pub same_integer : ℤ → ℤ → Bool
same_integer (pos m) (pos n) = m == n
same_integer (pos m) (negsuc n) = false
same_integer (negsuc m) (pos n) = false
same_integer (negsuc m) (negsuc n) = m == n

abbrev pub is_negative : ℤ → Bool
is_negative (pos n) = false
is_negative (negsuc n) = true

-- `i > j`.
abbrev pub exceeds : ℤ → ℤ → Bool
exceeds (pos m) (pos n) = ltb n m
exceeds (pos m) (negsuc n) = true
exceeds (negsuc m) (pos n) = false
exceeds (negsuc m) (negsuc n) = ltb m n

-- An argument of the invocation, as the code reads it: an address, a value that is a `bigint`, or
-- another value.
pub data ScVal : Type 0 where
  address : Text → ScVal
  integer : ℤ → ScVal
  other : Text → ScVal

pub record Invocation : Type 0 where
  pub contract_address : Text
  pub function_name : Text
  pub args : List ScVal

-- `none` is a host function that invokes no contract.
pub data Operation : Type 0 where
  invoke_host_function : Option Invocation → List Text → Operation
  other_operation : Operation

pub data Reason : Type 0 where
  transaction_missing transaction_malformed operation_count : Reason
  not_invoke_host_function not_contract_invocation wrong_contract wrong_function : Reason
  wrong_argument_count arguments_malformed asset_mismatch payto_mismatch : Reason
  ceiling_mismatch no_authorization : Reason
  actual_amount_malformed actual_amount_negative actual_exceeds_ceiling : Reason
  simulation_failed fee_exceeds_maximum : Reason
  transaction_submission_failed transaction_failed confirmation_timeout : Reason

pub data Checked {ℓ} (A : Type ℓ) : Type ℓ where
  passed : A → Checked A
  rejected : Reason → Checked A
  threw : Checked A

-- The requirements: `actual_amount` is `none` where `extra.actualAmount` is undefined.
pub record Requirements : Type 0 where
  pub asset : Text
  pub pay_to : Text
  pub amount : Text
  pub actual_amount : Option Text

pub record Sdk : Type 0 where
  pub operations_of : Text → Option (List Operation)
  pub big_int : Text → Option ℤ

pub record ParsedSettle : Type 0 where
  pub auth : List Text
  pub args : List ScVal
  pub payer : Text
  pub max : ℤ

-- SETTLE_ARG_COUNT.
abbrev pub settle_arg_count : ℕ
settle_arg_count = 7

-- `max === BigInt(requirements.amount)`; `none` is a text that `BigInt` rejects.
abbrev pub is_amount : Option ℤ → ScVal → Checked Bool
is_amount none max = threw
is_amount (some n) (integer m) = passed (same_integer m n)
is_amount (some n) (address a) = passed false
is_amount (some n) (other v) = passed false

-- `max`, where it is a `bigint`.
abbrev pub ceiling_of : ScVal → ℤ
ceiling_of (integer m) = m
ceiling_of (address a) = pos 0
ceiling_of (other v) = pos 0

unfoldable pub check_ceiling :
    Checked Bool → List Text → List ScVal → Text → ScVal → Checked ParsedSettle
check_ceiling threw auth args payer max = threw
check_ceiling (rejected reason) auth args payer max = rejected reason
check_ceiling (passed false) auth args payer max = rejected ceiling_mismatch
check_ceiling (passed true) [] args payer max = rejected no_authorization
check_ceiling (passed true) (a ∷ auth) args payer max =
    passed (record { auth = a ∷ auth; args = args; payer = payer; max = ceiling_of max })

-- `args[i].address()`.
unfoldable pub address_of : Option ScVal → Option Text
address_of none = none
address_of (some (address t)) = some t
address_of (some (integer n)) = none
address_of (some (other v)) = none

-- The tests on token, from, to and max; `none` is an argument that cannot be read.
unfoldable pub check_fields :
    Sdk
    → Requirements
    → List Text
    → List ScVal
    → Option Text
    → Option Text
    → Option Text
    → Option ScVal
    → Checked ParsedSettle
check_fields sdk r auth args (some token) (some payer) (some to) (some max) =
    if not (same_text token r.asset)
    then rejected asset_mismatch
    else if not (same_text to r.pay_to)
    then rejected payto_mismatch
    else check_ceiling (is_amount (sdk.big_int r.amount) max) auth args payer max
check_fields sdk r auth args none payer to max = rejected arguments_malformed
check_fields sdk r auth args (some token) none to max = rejected arguments_malformed
check_fields sdk r auth args (some token) (some payer) none max = rejected arguments_malformed
check_fields sdk r auth args (some token) (some payer) (some to) none = rejected arguments_malformed

unfoldable pub check_args : Sdk → Requirements → List Text → List ScVal → Checked ParsedSettle
check_args sdk r auth args =
    if not (length args == settle_arg_count)
    then rejected wrong_argument_count
    else check_fields sdk r auth args (address_of (get_elem? args 0))
        (address_of (get_elem? args 1)) (address_of (get_elem? args 2)) (get_elem? args 3)

unfoldable pub check_operation : Sdk → Text → Requirements → Operation → Checked ParsedSettle
check_operation sdk contract_id r other_operation = rejected not_invoke_host_function
check_operation sdk contract_id r (invoke_host_function none auth) =
    rejected not_contract_invocation
check_operation sdk contract_id r (invoke_host_function (some ic) auth) =
    if not (same_text ic.contract_address contract_id)
    then rejected wrong_contract
    else if not (same_text ic.function_name (codes "settle"))
    then rejected wrong_function
    else check_args sdk r auth ic.args

unfoldable pub check_operations :
    Sdk → Text → Requirements → Option (List Operation) → Checked ParsedSettle
check_operations sdk contract_id r none = rejected transaction_malformed
check_operations sdk contract_id r (some (op ∷ [])) = check_operation sdk contract_id r op
check_operations sdk contract_id r (some []) = rejected operation_count
check_operations sdk contract_id r (some (op ∷ next ∷ ops)) = rejected operation_count

-- `none` is a transaction that is no text.
unfoldable pub parse_and_validate : Sdk → Text → Option Text → Requirements → Checked ParsedSettle
parse_and_validate sdk contract_id none r = rejected transaction_missing
parse_and_validate sdk contract_id (some tx) r =
    if length tx == 0
    then rejected transaction_missing
    else check_operations sdk contract_id r (sdk.operations_of tx)

unfoldable pub bound_actual : Option ℤ → ℤ → Checked ℤ
bound_actual none max = rejected actual_amount_malformed
bound_actual (some actual) max =
    if is_negative actual
    then rejected actual_amount_negative
    else if exceeds actual max
    then rejected actual_exceeds_ceiling
    else passed actual

unfoldable pub actual_for : Sdk → Requirements → ℤ → Checked ℤ
actual_for sdk r max = elim r.actual_amount [
  | none ↦ bound_actual (some max) max
  | some raw ↦ bound_actual (sdk.big_int raw) max
]

-- An assignment to an element.
unfoldable pub set_elem {ℓ} : {A : Type ℓ} → ℕ → A → List A → List A
set_elem i x [] = []
set_elem zero x (y ∷ ys) = x ∷ ys
set_elem (suc i) x (y ∷ ys) = y ∷ set_elem i x ys

-- `args[ARG.actual] = …`.
abbrev pub set_actual : ℤ → List ScVal → List ScVal
set_actual actual args = set_elem 6 (integer actual) args

pub data TxStatus : Type 0 where
  success failed not_found : TxStatus

-- The RPC server on a transaction of one operation, which assembling it leaves as it is: the assembled
-- fee if the simulation succeeds, whether the submission is pending, and the status at each look.
pub record Server : Type 0 where
  pub simulate : Operation → Option ℕ
  pub is_pending : Operation → Bool
  pub get_transaction : ℕ → TxStatus

-- The operation that buildAndSimulate puts in its transaction.
unfoldable pub rebuilt : Text → ParsedSettle → ℤ → Operation
rebuilt contract_id parsed actual =
    invoke_host_function
      (some (record {
        contract_address = contract_id;
        function_name = codes "settle";
        args = set_actual actual parsed.args;
      }))
      parsed.auth

-- buildAndSimulate: the operation of the assembled transaction.
unfoldable pub build_and_simulate : Server → Text → ℕ → ParsedSettle → ℤ → Checked Operation
build_and_simulate server contract_id max_fee parsed actual =
    let op = rebuilt contract_id parsed actual in
    elim (server.simulate op) [
      | none ↦ rejected simulation_failed
      | some fee ↦ (if ltb max_fee fee then rejected fee_exceeds_maximum else passed op)
    ]

pub record Settlement : Type 0 where
  pub payer : Text
  pub amount : ℤ
  pub submitted : Operation

-- One look at the status, and what follows where it decides nothing.
unfoldable pub next_look : Settlement → TxStatus → Checked Settlement → Checked Settlement
next_look s success rest = passed s
next_look s failed rest = rejected transaction_failed
next_look s not_found rest = rest

-- The looks that are left.
unfoldable pub confirm : (ℕ → TxStatus) → ℕ → ℕ → Settlement → Checked Settlement
confirm look zero i s = rejected confirmation_timeout
confirm look (suc left) i s = next_look s (look i) (confirm look left (suc i) s)

unfoldable pub submit : Server → ParsedSettle → ℤ → Checked Operation → Checked Settlement
submit server parsed actual threw = threw
submit server parsed actual (rejected reason) = rejected reason
submit server parsed actual (passed op) =
    if server.is_pending op
    then confirm server.get_transaction 20 0
        (record { payer = parsed.payer; amount = actual; submitted = op })
    else rejected transaction_submission_failed

unfoldable pub settle_actual : Server → Text → ℕ → ParsedSettle → Checked ℤ → Checked Settlement
settle_actual server contract_id max_fee parsed threw = threw
settle_actual server contract_id max_fee parsed (rejected reason) = rejected reason
settle_actual server contract_id max_fee parsed (passed actual) =
    submit server parsed actual (build_and_simulate server contract_id max_fee parsed actual)

unfoldable pub settle_parsed :
    Sdk → Server → Text → ℕ → Requirements → Checked ParsedSettle → Checked Settlement
settle_parsed sdk server contract_id max_fee r threw = threw
settle_parsed sdk server contract_id max_fee r (rejected reason) = rejected reason
settle_parsed sdk server contract_id max_fee r (passed parsed) =
    settle_actual server contract_id max_fee parsed (actual_for sdk r parsed.max)

unfoldable pub settle : Sdk → Server → Text → ℕ → Option Text → Requirements → Checked Settlement
settle sdk server contract_id max_fee transaction r =
    settle_parsed sdk server contract_id max_fee r
      (parse_and_validate sdk contract_id transaction r)

unfoldable pub verify_parsed : Server → Text → ℕ → Checked ParsedSettle → Checked Text
verify_parsed server contract_id max_fee threw = threw
verify_parsed server contract_id max_fee (rejected reason) = rejected reason
verify_parsed server contract_id max_fee (passed parsed) =
    elim (build_and_simulate server contract_id max_fee parsed parsed.max) [
      | threw ↦ threw
      | rejected reason ↦ rejected reason
      | passed op ↦ passed parsed.payer
    ]

-- verify(): the payer.
unfoldable pub verify : Sdk → Server → Text → ℕ → Option Text → Requirements → Checked Text
verify sdk server contract_id max_fee transaction r =
    verify_parsed server contract_id max_fee (parse_and_validate sdk contract_id transaction r)

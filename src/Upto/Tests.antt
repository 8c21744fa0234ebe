-- ===== src/Upto/Tests.antt =====
-- A payment with a ceiling of 10 of which 7 are used.
use vellar_facilitator.Upto.{
  parse_and_validate, check_operations, check_operation, check_args, address_of, check_fields,
  check_ceiling, settle_parsed, actual_for, bound_actual, settle_actual, build_and_simulate,
  rebuilt, set_elem, submit, confirm, next_look,
}
use vellar_facilitator.Base.Text.{same_text}
use vellar_facilitator.Base.{
  ℕ, zero, suc, ◌-◌, ◌≡◌, refl, Bool, true, Option, none, some, List, [], ◌∷◌,
}
use vellar_facilitator.Base.Text.{codes}
use vellar_facilitator.Base.Table.{Text}
use vellar_facilitator.Upto.{
  ℤ, pos, ScVal, address, integer, other, Operation, invoke_host_function, passed, rejected,
  actual_exceeds_ceiling, Requirements, Sdk, TxStatus, success, not_found, Server, Settlement,
  settle,
}
use vellar_facilitator.Upto.Ceiling.{IsWithinSigned, settle-IsWithinSigned}

abbrev args : ℤ → List ScVal
args actual =
    address (codes "USDC")
    ∷ address (codes "GBUYER")
    ∷ address (codes "GSELLER")
    ∷ integer (pos 10)
    ∷ other (codes "ledger")
    ∷ other (codes "nonce")
    ∷ integer actual
    ∷ []

abbrev call : ℤ → Operation
call actual =
    invoke_host_function
      (some (record {
        contract_address = codes "C";
        function_name = codes "settle";
        args = args actual;
      }))
      (codes "auth" ∷ [])

abbrev operations_of : Text → Option (List Operation)
operations_of tx = some (call (pos 10) ∷ [])

-- The texts of one character are read as its distance from `0`.
abbrev big_int : Text → Option ℤ
big_int [] = none
big_int (c ∷ cs) = some (pos (c - b'0'))

abbrev sdk : Sdk
sdk = record { operations_of = operations_of; big_int = big_int }

abbrev simulate : Operation → Option ℕ
simulate l = some 100

abbrev is_pending : Operation → Bool
is_pending l = true

abbrev get_transaction : ℕ → TxStatus
get_transaction zero = not_found
get_transaction (suc n) = success

abbrev server : Server
server = record { simulate = simulate; is_pending = is_pending; get_transaction = get_transaction }

-- An amount of 10, written `:`.
abbrev requirements : Text → Requirements
requirements used = record {
  asset = codes "USDC";
  pay_to = codes "GSELLER";
  amount = codes ":";
  actual_amount = some used;
}

abbrev settled : Settlement
settled = record { payer = codes "GBUYER"; amount = pos 7; submitted = call (pos 7) }

settles_seven :
    settle sdk server (codes "C") 1000 (some (codes "tx")) (requirements (codes "7"))
    ≡ passed settled
unfolding settle parse_and_validate check_operations check_operation check_args address_of
    check_fields check_ceiling settle_parsed actual_for bound_actual settle_actual
    build_and_simulate rebuilt set_elem submit confirm next_look same_text
settles_seven = refl

refuses_eleven :
    settle sdk server (codes "C") 1000 (some (codes "tx")) (requirements (codes ";"))
    ≡ rejected actual_exceeds_ceiling
unfolding settle parse_and_validate check_operations check_operation check_args address_of
    check_fields check_ceiling settle_parsed actual_for bound_actual settle_actual
    build_and_simulate rebuilt set_elem submit confirm next_look same_text
refuses_eleven = refl

settle-IsWithinSigned_example :
    (ops : List Operation) × ((operations_of (codes "tx") ≡ some ops)
      × IsWithinSigned sdk (codes "C") (requirements (codes "7")) ops settled)
settle-IsWithinSigned_example =
    settle-IsWithinSigned sdk server (codes "C") 1000 (codes "tx") (requirements (codes "7"))
      settled settles_seven

-- ===== src/Bond/Tests.antt =====
-- The registration of src/bond.ts at a settlement that the contract knows already.
use vellar_facilitator.Bond.{is_hex}
use vellar_facilitator.Bond.{hex_bytes}
use vellar_facilitator.Settle.{register_bond}
use vellar_facilitator.Settle.{respond}
use vellar_facilitator.Base.KeySet.{add_all}
use vellar_facilitator.Settle.{capture}
use vellar_facilitator.Settle.{attempt_settle}
use vellar_facilitator.Settle.{perform}
use vellar_facilitator.Bond.{digits_then_close}
use vellar_facilitator.Bond.{behind}
use vellar_facilitator.Base.{ℕ, ◌≡◌, refl, ◌⊎◌, Bool, true, false, none, some, [], ◌∷◌, length, ltb}
use vellar_facilitator.Base.Text.{codes}
use vellar_facilitator.Base.Table.{Text}
use vellar_facilitator.Pool
use vellar_facilitator.Settle.{
  Registration, Result, Attempt, answered, Request, Deployment, Shared, run_settle_pipeline,
}
use vellar_facilitator.Upto.{ℤ}
use vellar_facilitator.Bond.{
  Params, Server, fails, other, is_well_formed, parse_contract_error, register_settlement,
}
use vellar_facilitator.Bond.Standing.{IsConfirmed, IsAlreadyThere, settle-IsRegistered}

abbrev trap : Text
trap = codes "HostError: Error(Contract, #3) at #7)"

code_three : parse_contract_error trap ≡ some 3
unfolding parse_contract_error behind digits_then_close
code_three = refl

unclosed : parse_contract_error (codes "Error(Contract, #31") ≡ none
unfolding parse_contract_error behind digits_then_close
unclosed = refl

abbrev hash : Text
hash = codes "00112233445566778899aabbccddeeff00112233445566778899AABBCCDDEEFF"

abbrev params : Params
params = record {
  payment_id = hash;
  payer = codes "GPAYER";
  seller = codes "GSHOP";
  resource_key = codes "https://a.example/x";
  amount = some (ℤ.pos 5);
}

abbrev any_address : Text → Bool
any_address t = ltb 0 (length t)

abbrev server : Server
server = record {
  has_account = true;
  simulation = some (fails trap);
  sent_pending = none;
  get_transaction = λ i. some other;
}

abbrev outcome : Registration
outcome = register_settlement any_address (codes "CBOND") 1000 server params

abbrev settled : Result
settled = record {
  success = true;
  transaction = "hash";
  error_reason = none;
  payer = some "GPAYER";
  has_rpc_status = false;
  submitted_fee = none;
}

abbrev settles : ℕ → Attempt
settles _ = record { selects_signer = true; result = some settled }

abbrev order : Request
order = record {
  has_body = true;
  is_parseable = true;
  identity = record { resource_url = "https://a.example/x"; pay_to = "GSHOP"; bound = true };
  seller = some "GSHOP";
}

abbrev bonded : Deployment
bonded = record {
  is_paused = false;
  settle_allowed = true;
  has_bond_escrow = true;
  registration = outcome;
}

abbrev start : Shared
start = record { pool = Pool.create ("GA" ∷ []); policy = none }

answers : (run_settle_pipeline bonded 1 settles order 7 start).1 ≡ answered settled
unfolding run_settle_pipeline perform attempt_settle capture Pool.acquire Pool.create add_all
    respond register_bond register_settlement is_well_formed hex_bytes is_hex parse_contract_error
    behind digits_then_close
answers = refl

settle-IsRegistered_example :
    (is_well_formed any_address (codes "CBOND") params ≡ true)
    × (IsConfirmed 1000 server ⊎ IsAlreadyThere server)
settle-IsRegistered_example =
    settle-IsRegistered any_address (codes "CBOND") 1000 server params bonded 1 settles order 7
      start settled refl refl answers refl

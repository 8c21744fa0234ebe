-- ===== src/Bond.antt =====
-- src/bond.ts: registerSettlement, to the outcome that src/server.ts reads. Parameters: whether a text is
-- an address, and the answers of the RPC server, of which `none` is an exception.
pub mod Standing
mod Tests
use vellar_facilitator.Base.{
  ℕ, zero, suc, ◌*◌, ◌+◌, ◌-◌, Bool, true, false, not, ◌&&◌, ◌||◌, Option, none, some, List, [],
  ◌∷◌, ltb, leb, length, ◌==◌, if◌then◌else◌,
}
use vellar_facilitator.Base.Text.{codes, is_digit, decimal}
use vellar_facilitator.Base.Table.{Text}
use vellar_facilitator.Settle.{Registration, registered, rejected, infrastructure_error, threw}
use vellar_facilitator.Upto.{ℤ, exceeds, is_negative}

-- A `Buffer.from(text, "hex")` reads pairs of digits up to the first that is none; its length.
unfoldable pub is_hex : ℕ → Bool
is_hex c = is_digit c || (leb b'a' c && leb c b'f') || (leb b'A' c && leb c b'F')

unfoldable pub hex_bytes : Text → ℕ
hex_bytes [] = 0
hex_bytes (c ∷ []) = 0
hex_bytes (c ∷ d ∷ rest) = let more = hex_bytes rest in if is_hex c && is_hex d then suc more else 0

-- The rest of a text behind a prefix.
unfoldable pub behind : Text → Text → Option Text
behind [] t = some t
behind (p ∷ ps) [] = none
behind (p ∷ ps) (c ∷ cs) = let rest = behind ps cs in if p == c then rest else none

-- `(\d+)\)`, with the digits that are read, reversed.
unfoldable pub digits_then_close : Text → Text → Option Text
digits_then_close digits [] = none
digits_then_close digits (c ∷ cs) =
    let more = digits_then_close (c ∷ digits) cs in
    if is_digit c then more else if c == b')' && ltb 0 (length digits) then some digits else none

abbrev pub number_of : Text → ℕ
number_of [] = 0
number_of (d ∷ ds) = number_of ds * 10 + (d - b'0')

abbrev pub match_here : Option Text → Option ℕ
match_here none = none
match_here (some rest) = elim (digits_then_close [] rest) [
  | none ↦ none
  | some digits ↦ some (number_of digits)
]

abbrev pub first_of : Option ℕ → Option ℕ → Option ℕ
first_of none later = later
first_of (some n) later = some n

-- parseContractError, to the code: the first match of CONTRACT_ERROR_PATTERN.
unfoldable pub parse_contract_error : Text → Option ℕ
parse_contract_error [] = none
parse_contract_error (c ∷ cs) =
    first_of (match_here (behind (codes "Error(Contract, #") (c ∷ cs))) (parse_contract_error cs)

-- `amount` is `none` where BigInt throws.
pub record Params : Type 0 where
  pub payment_id : Text
  pub payer : Text
  pub seller : Text
  pub resource_key : Text
  pub amount : Option ℤ

pub data Simulation : Type 0 where
  fails : Text → Simulation
  succeeds : ℕ → Simulation

pub data Status : Type 0 where
  success failed other : Status

pub record Server : Type 0 where
  pub has_account : Bool
  pub simulation : Option Simulation
  pub sent_pending : Option Bool
  pub get_transaction : ℕ → Option Status

abbrev pub is_positive : Option ℤ → Bool
is_positive none = false
is_positive (some n) = exceeds n (ℤ.pos 0)

-- The checks whose failure is thrown.
unfoldable pub is_well_formed : (Text → Bool) → Text → Params → Bool
is_well_formed is_address contract_id p =
    (hex_bytes p.payment_id == 32)
    && is_address p.payer
    && is_address p.seller
    && is_address contract_id
    && is_positive p.amount
    && ltb 0 (length p.resource_key)

abbrev pub next_look : Option Status → Registration → Registration
next_look none rest = infrastructure_error
next_look (some success) rest = registered
next_look (some failed) rest = infrastructure_error
next_look (some other) rest = rest

-- The looks that are left.
unfoldable pub confirm : (ℕ → Option Status) → ℕ → ℕ → Registration
confirm look zero i = infrastructure_error
confirm look (suc left) i = next_look (look i) (confirm look left (suc i))

abbrev pub after_send : Server → Option Bool → Registration
after_send server none = infrastructure_error
after_send server (some false) = infrastructure_error
after_send server (some true) = confirm server.get_transaction 20 0

abbrev pub after_simulation : Server → ℕ → Option Simulation → Registration
after_simulation server max_fee none = infrastructure_error
after_simulation server max_fee (some (fails error)) = rejected (parse_contract_error error)
after_simulation server max_fee (some (succeeds fee)) =
    if ltb max_fee fee then infrastructure_error else after_send server server.sent_pending

-- registerSettlement, with the contract and the fee ceiling of its options.
unfoldable pub register_settlement : (Text → Bool) → Text → ℕ → Server → Params → Registration
register_settlement is_address contract_id max_fee server p =
    if not (is_well_formed is_address contract_id p)
    then threw
    else if not server.has_account
    then infrastructure_error
    else after_simulation server max_fee server.simulation

-- ===== src/Payability.antt =====
-- src/payability.ts: whether the payTo of a listing can be paid in its asset right now. Parameters: the
-- key checks of the SDK, and what the RPC server and Horizon answer.
pub mod Limiter
pub mod Resolver
pub mod Page
pub mod Pruned
pub mod Evidence
mod Tests
use vellar_facilitator.Base.{
  ℕ, Bool, true, false, not, ◌&&◌, ◌||◌, Option, none, some, List, [], ◌∷◌, leb, ◌==◌,
  if◌then◌else◌,
}
use vellar_facilitator.Base.Text.{codes, same_text, until, includes}
use vellar_facilitator.Base.Table.{Text}

-- The type `Payability`.
pub data Verdict : Type 0 where
  payable not_payable unknown : Verdict

pub data ClassicIdentity : Type 0 where
  native : ClassicIdentity
  classic : Text → Text → ClassicIdentity
  non_sac : ClassicIdentity
  transient_error : ClassicIdentity

-- `StrKey.isValidEd25519PublicKey` and `StrKey.isValidContract`.
pub record StrKey : Type 0 where
  pub is_valid_public_key : Text → Bool
  pub is_valid_contract : Text → Bool

-- The outcome of the simulated `name()`: it could not be completed, the RPC answered with an error, or
-- it answered, with a return value that is a text (`some (some t)`), that is none (`some none`), or with
-- no return value.
pub data Simulation : Type 0 where
  incomplete : Simulation
  simulation_error : Simulation
  simulated : Option (Option Text) → Simulation

-- `value.slice(value.indexOf(c) + 1)`, if the character stands in the text.
unfoldable pub behind : ℕ → Text → Text
behind c [] = []
behind c (x ∷ xs) = let rest = behind c xs in if x == c then xs else rest

abbrev pub is_empty : Text → Bool
is_empty [] = true
is_empty (c ∷ cs) = false

unfoldable pub identity_of_name : StrKey → Text → ClassicIdentity
identity_of_name keys value =
    if same_text value (codes "native")
    then native
    else if not (includes b':' value) || is_empty (until b':' value)
    then non_sac
    else if keys.is_valid_public_key (behind b':' value)
    then classic (until b':' value) (behind b':' value)
    else non_sac

-- resolveClassicIdentity.
unfoldable pub resolve_classic_identity : StrKey → Simulation → ClassicIdentity
resolve_classic_identity keys incomplete = transient_error
resolve_classic_identity keys simulation_error = non_sac
resolve_classic_identity keys (simulated none) = non_sac
resolve_classic_identity keys (simulated (some none)) = non_sac
resolve_classic_identity keys (simulated (some (some value))) = identity_of_name keys value

-- An element of `balances`; a field that is absent is `none`.
pub record TrustLine : Type 0 where
  pub asset_code : Option Text
  pub asset_issuer : Option Text
  pub is_authorized : Bool

-- Horizon's answer: the fetch failed, or its status and its body, which is `none` if reading it threw,
-- and whose `balances` may be absent.
pub data Response : Type 0 where
  unreachable : Response
  answered : ℕ → Option (Option (List TrustLine)) → Response

-- `res.ok`.
abbrev pub is_ok : ℕ → Bool
is_ok status = leb 200 status && leb status 299

abbrev pub is_field : Text → Option Text → Bool
is_field t none = false
is_field t (some u) = same_text u t

-- `balances.find(…)`, and what its result says.
unfoldable pub line_verdict : Text → Text → List TrustLine → Verdict
line_verdict code issuer [] = not_payable
line_verdict code issuer (l ∷ ls) =
    let rest = line_verdict code issuer ls in
    if is_field code l.asset_code && is_field issuer l.asset_issuer
    then (if l.is_authorized then payable else not_payable)
    else rest

unfoldable pub body_verdict : Text → Text → Option (Option (List TrustLine)) → Verdict
body_verdict code issuer none = unknown
body_verdict code issuer (some none) = not_payable
body_verdict code issuer (some (some ls)) = line_verdict code issuer ls

unfoldable pub horizon_trustline_authorized : Text → Text → Response → Verdict
horizon_trustline_authorized code issuer unreachable = unknown
horizon_trustline_authorized code issuer (answered status contents) =
    if is_ok status then body_verdict code issuer contents else unknown

unfoldable pub horizon_account_exists : Response → Verdict
horizon_account_exists unreachable = unknown
horizon_account_exists (answered status contents) = if is_ok status then payable else unknown

abbrev pub ask_horizon : ClassicIdentity → Response → Verdict
ask_horizon native r = horizon_account_exists r
ask_horizon (classic code issuer) r = horizon_trustline_authorized code issuer r
ask_horizon non_sac r = unknown
ask_horizon transient_error r = unknown

abbrev pub is_classic : ClassicIdentity → Bool
is_classic native = true
is_classic (classic code issuer) = true
is_classic non_sac = false
is_classic transient_error = false

-- resolve, from the identity on; `response` is what Horizon answers if it is asked.
unfoldable pub resolve : StrKey → ClassicIdentity → Text → Response → Verdict
resolve keys identity pay_to response =
    if not (is_classic identity)
    then unknown
    else if keys.is_valid_contract pay_to
    then payable
    else if keys.is_valid_public_key pay_to
    then ask_horizon identity response
    else unknown

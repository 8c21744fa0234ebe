-- ===== src/Payability/Evidence.antt =====
-- src/payability.ts: what a verdict says about the chain.
use vellar_facilitator.Base.{
  ℕ, ◌≡◌, refl, ◌∙◌, ap, Bool, true, false, not, ◌&&◌, Option, none, some, List, [], ◌∷◌, arith,
  if◌then◌else◌,
}
use vellar_facilitator.Base.Table.{Text}
use vellar_facilitator.Payability.{
  Verdict, payable, not_payable, unknown, ClassicIdentity, native, classic, non_sac,
  transient_error, StrKey, TrustLine, Response, unreachable, answered, is_ok, is_field,
  line_verdict, body_verdict, horizon_trustline_authorized, horizon_account_exists, ask_horizon,
  is_classic, resolve,
}

-- The trust lines of a body, which may name none.
abbrev pub lines_of : Option (List TrustLine) → List TrustLine
lines_of none = []
lines_of (some ls) = ls

-- The first line of the asset, if there is one, is not authorised.
unfoldable pub lacks_trust : Text → Text → List TrustLine → Bool
lacks_trust code issuer [] = true
lacks_trust code issuer (l ∷ ls) =
    let rest = lacks_trust code issuer ls in
    if is_field code l.asset_code && is_field issuer l.asset_issuer
    then not l.is_authorized
    else rest

line_verdict_lem :
    (code issuer : Text) (ls : List TrustLine)
    → line_verdict code issuer ls ≡ (if lacks_trust code issuer ls then not_payable else payable)
unfolding line_verdict lacks_trust
line_verdict_lem code issuer [] = refl
line_verdict_lem code issuer (l ∷ ls) = ground (arith, line_verdict_lem code issuer ls)

-- What a refusal rests on: an asset with a classic identity, a payTo that is an account and no
-- contract, and an answer of Horizon whose trust lines lack an authorised one for the asset.
abbrev pub IsEvident : StrKey → ClassicIdentity → Text → Response → Type 0
IsEvident keys identity pay_to response =
    (code : Text) × (issuer : Text) × (status : ℕ) × (balances : Option (List TrustLine))
    × (identity ≡ classic code issuer)
    × (response ≡ answered status (some balances))
    × (is_ok status ≡ true)
    × (lacks_trust code issuer (lines_of balances) ≡ true)
    × (keys.is_valid_contract pay_to ≡ false)
    × (keys.is_valid_public_key pay_to ≡ true)

body_verdict-lacks :
    (code issuer : Text) (contents : Option (Option (List TrustLine)))
    → body_verdict code issuer contents ≡ not_payable
    → (balances : Option (List TrustLine)) × (contents ≡ some balances)
      × (lacks_trust code issuer (lines_of balances) ≡ true)
unfolding body_verdict lacks_trust
body_verdict-lacks code issuer none e = cc
body_verdict-lacks code issuer (some none) e = (none, refl, refl)
body_verdict-lacks code issuer (some (some ls)) e =
    (some ls, refl, ground (arith, line_verdict_lem code issuer ls))

-- Behind a guard whose failure reads unknown.
guarded :
    (b : Bool) (x : Verdict)
    → (if b then x else unknown) ≡ not_payable
    → (b ≡ true) × (x ≡ not_payable)
guarded true x e = (refl, e)
guarded false x e = cc

ask_horizon-refusal :
    (identity : ClassicIdentity) (response : Response)
    → ask_horizon identity response ≡ not_payable
    → (code : Text) × (issuer : Text) × (status : ℕ) × (balances : Option (List TrustLine))
      × (identity ≡ classic code issuer)
      × (response ≡ answered status (some balances))
      × (is_ok status ≡ true)
      × (lacks_trust code issuer (lines_of balances) ≡ true)
unfolding horizon_account_exists horizon_trustline_authorized
ask_horizon-refusal native unreachable e = cc
ask_horizon-refusal native (answered status contents) e =
    let impossible : payable ≡ not_payable = (guarded (is_ok status) payable e).1 in cc
ask_horizon-refusal (classic code issuer) unreachable e = cc
ask_horizon-refusal (classic code issuer) (answered status contents) e =
    let g = guarded (is_ok status) (body_verdict code issuer contents) e in
    let l = body_verdict-lacks code issuer contents g.1 in
    (code, issuer, status, l.0, refl, ap (answered status) l.1, g.0, l.2)
ask_horizon-refusal non_sac r e = cc
ask_horizon-refusal transient_error r e = cc

-- "Not payable" is never said for a check that could not be made. It rests on an answer of Horizon, read
-- in full, for an account that is a payTo of a classic asset and does not have an authorised trust line
-- for it: a failed simulation, an unreachable Horizon, an error status, and an unknown account or
-- contract never give it.
pub resolve-IsEvident :
    (keys : StrKey) (identity : ClassicIdentity) (pay_to : Text) (response : Response)
    → resolve keys identity pay_to response ≡ not_payable
    → IsEvident keys identity pay_to response
unfolding resolve
resolve-IsEvident keys identity pay_to response e =
    evident (is_classic identity) (keys.is_valid_contract pay_to) (keys.is_valid_public_key pay_to)
      refl refl e
  where
    evident :
        (c k a : Bool)
        → keys.is_valid_contract pay_to ≡ k
        → keys.is_valid_public_key pay_to ≡ a
        → (if not c
            then unknown
            else if k
            then payable
            else if a
            then ask_horizon identity response
            else unknown)
          ≡ not_payable
        → IsEvident keys identity pay_to response
    evident false k a hk ha e = cc
    evident true true a hk ha e = cc
    evident true false a hk ha e =
        let g = guarded a (ask_horizon identity response) e in
        let r = ask_horizon-refusal identity response g.1 in
        (r.0, r.1, r.2, r.3, r.4, r.5, r.6, r.7, hk, ha ∙ g.0)

-- ===== src/Payability/Tests.antt =====
-- src/payability.ts at concrete inputs.
use vellar_facilitator.Base.{
  ℕ, ◌-◌, ◌≡◌, ◌≤◌, ◌<◌, refl, ◌+◌, arith, Bool, true, false, none, some, List, [], ◌∷◌, ltb,
  length, filter,
}
use vellar_facilitator.Base.Text.{codes, same_text, until, includes}
use vellar_facilitator.Base.Table.{Text}
use vellar_facilitator.Payability.{
  payable, unknown, ClassicIdentity, native, classic, non_sac, StrKey, simulated, TrustLine,
  answered, unreachable, identity_of_name, resolve_classic_identity, resolve, line_verdict,
  body_verdict, horizon_trustline_authorized, behind,
}
use vellar_facilitator.Payability.Evidence.{IsEvident, resolve-IsEvident}
use vellar_facilitator.Payability.Limiter.{
  idle, enter, call, wake, finish, go_on, continue, calls, finishes, continues, step, run,
}
use vellar_facilitator.Payability.Limiter.Overrun.{barged, run-bounded}
use vellar_facilitator.Payability.Limiter.Order
use vellar_facilitator.Payability.Limiter.Order.{Turn, take_turns, take_turns-ordered, called}
use vellar_facilitator.Payability.Limiter.Drain.{take_ends, load, take_turns-drains}
use vellar_facilitator.Payability.Resolver
use vellar_facilitator.Payability.Resolver.{
  pair_key, check, started, cached, Options, Cached, create,
}
use vellar_facilitator.Payability.Resolver.Freshness.{last_completed, check-fresh}

-- An account's key starts with a G, a contract's with a C.
abbrev starts_by : ℕ → Text → Bool
starts_by k [] = false
starts_by k (c ∷ cs) = ltb 0 (length (filter (λ d. same_text (d ∷ []) (k ∷ [])) (c ∷ [])))

abbrev keys : StrKey
keys = record { is_valid_public_key = starts_by b'G'; is_valid_contract = starts_by b'C' }

name_usdc :
    resolve_classic_identity keys (simulated (some (some (codes "USDC:GI"))))
    ≡ classic (codes "USDC") (codes "GI")
unfolding resolve_classic_identity identity_of_name same_text includes until behind
name_usdc = refl

name_native : resolve_classic_identity keys (simulated (some (some (codes "native")))) ≡ native
unfolding resolve_classic_identity identity_of_name same_text
name_native = refl

name_bare : resolve_classic_identity keys (simulated (some (some (codes ":GI")))) ≡ non_sac
unfolding resolve_classic_identity identity_of_name same_text includes until
name_bare = refl

abbrev usdc : ClassicIdentity
usdc = classic (codes "USDC") (codes "GI")

abbrev line : Bool → TrustLine
line authorized = record {
  asset_code = some (codes "USDC");
  asset_issuer = some (codes "GI");
  is_authorized = authorized;
}

resolve_contract : resolve keys usdc (codes "CX") unreachable ≡ payable
unfolding resolve same_text
resolve_contract = refl

resolve_missing : resolve keys usdc (codes "GX") (answered 404 none) ≡ unknown
unfolding resolve same_text horizon_trustline_authorized
resolve_missing = refl

resolve-IsEvident_example :
    IsEvident keys usdc (codes "GX") (answered 200 (some (some (line false ∷ []))))
unfolding resolve same_text horizon_trustline_authorized body_verdict line_verdict
resolve-IsEvident_example =
    resolve-IsEvident keys usdc (codes "GX") (answered 200 (some (some (line false ∷ [])))) refl

-- A call that comes between the end of one and the continuation of its successor: two run at once
-- under a limit of one.
overrun_of_one : (run 1 idle (calls 0 ∷ calls 1 ∷ finishes ∷ calls 2 ∷ continues ∷ [])).active ≡ 2
unfolding run step continue go_on call finish enter wake
overrun_of_one = refl

run-bounded_example :
    ((run 1 idle (calls 0 ∷ calls 1 ∷ finishes ∷ calls 2 ∷ [])).active
        + length (run 1 idle (calls 0 ∷ calls 1 ∷ finishes ∷ calls 2 ∷ [])).woken
      ≤ 1 + barged 1 idle (calls 0 ∷ calls 1 ∷ finishes ∷ calls 2 ∷ []))
    × (ltb 0 (length (run 1 idle (calls 0 ∷ calls 1 ∷ finishes ∷ calls 2 ∷ [])).queue) ≡ true
        → 1
          ≤ (run 1 idle (calls 0 ∷ calls 1 ∷ finishes ∷ calls 2 ∷ [])).active
            + length (run 1 idle (calls 0 ∷ calls 1 ∷ finishes ∷ calls 2 ∷ [])).woken)
run-bounded_example = run-bounded 1 (calls 0 ∷ calls 1 ∷ finishes ∷ calls 2 ∷ [])

abbrev turns : List Turn
turns = Order.calls 0 ∷ Order.calls 1 ∷ Order.calls 2 ∷ Order.ends ∷ []

take_turns-drains_example :
    ((take_turns 2 (take_turns 2 idle turns) (take_ends (load (take_turns 2 idle turns)))).active
      ≡ 0)
    × ((take_turns 2 (take_turns 2 idle turns) (take_ends (load (take_turns 2 idle turns)))).started
        ≡ called turns)
take_turns-drains_example = take_turns-drains 2 turns (omega arith)

abbrev options : Options
options = record { cache_ttl_ms = 300; unknown_cache_ttl_ms = 30 }

abbrev pair : Text
pair = b'G' ∷ 0 ∷ b'C' ∷ []

check-fresh_example :
    (c : Cached) × (last_completed
        (pair_key (codes "G") (codes "C"))
        none
        (Resolver.completes 5 pair payable ∷ [])
      ≡ some c)
    × (c.verdict ≡ payable)
    × (100 - c.at < Resolver.ttl_of options payable)
unfolding check Resolver.serve Resolver.run Resolver.step Resolver.complete same_text pair_key
    Resolver.ttl_of
check-fresh_example =
    check-fresh keys options (Resolver.completes 5 pair payable ∷ []) 100 (codes "G") (codes "C")
      payable refl

abbrev begun : Resolver.Resolver × Resolver.Answer
begun = check options 1 (codes "G") (codes "C") create

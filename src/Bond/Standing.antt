-- ===== src/Bond/Standing.antt =====
-- src/bond.ts within src/server.ts: what a success that /settle reports says of the bond contract.
use vellar_facilitator.Base.{
  ℕ, zero, suc, ◌≡◌, ◌≢◌, ◌⊎◌, inl, inr, refl, subst, Bool, true, false, not, Option, none, some,
  arith, ltb, ◌+◌, ◌<◌, ◌≤◌, if◌then◌else◌,
}
use vellar_facilitator.Base.Table.{Text}
use vellar_facilitator.Settle.{
  Registration, registered, rejected, infrastructure_error, threw, Result, Attempt, answered,
  Request, Deployment, Shared, run_settle_pipeline,
}
use vellar_facilitator.Settle.Success.{HasStanding, run_settle_pipeline-HasStanding}
use vellar_facilitator.Bond.{
  Params, Server, Simulation, fails, succeeds, Status, success, failed, other, is_well_formed,
  next_look, confirm, after_send, after_simulation, register_settlement, parse_contract_error,
}

-- The RPC server confirmed the transaction of the registration, which is well formed and was within the
-- fee ceiling, in one of the first twenty looks.
abbrev pub IsConfirmed : ℕ → Server → Type 0
IsConfirmed max_fee server =
    ((fee : ℕ) × (server.simulation ≡ some (succeeds fee)) × (fee ≤ max_fee))
    × (server.sent_pending ≡ some true)
    × ((i : ℕ) × (i < 20) × (server.get_transaction i ≡ some success))

-- The simulation failed with the contract's SettlementAlreadyRegistered.
abbrev pub IsAlreadyThere : Server → Type 0
IsAlreadyThere server =
    (error : Text) × (server.simulation ≡ some (fails error))
    × (parse_contract_error error ≡ some 3)

looked :
    (look : ℕ → Option Status) (left i : ℕ) (m : Option Status) (rest : Registration)
    → look i ≡ m
    → next_look m rest ≡ registered
    → ((rest ≡ registered) ⊎ (look i ≡ some success))
looked look left i none rest e h = cc
looked look left i (some success) rest e h = inr e
looked look left i (some failed) rest e h = cc
looked look left i (some other) rest e h = inl h

confirm-success :
    (look : ℕ → Option Status) (left i : ℕ)
    → confirm look left i ≡ registered
    → (j : ℕ) × (j < i + left) × (look j ≡ some success)
unfolding confirm
confirm-success look zero i h = cc
confirm-success look (suc left) i h =
    elim (looked look left i (look i) (confirm look left (suc i)) refl h) [
      | inl later ↦
          let found = confirm-success look left (suc i) later in
          (found.0, omega (arith, found.1), found.2)
      | inr now ↦ (i, omega arith, now)
    ]

looked-unrejected :
    (m : Option Status) (rest : Registration)
    → next_look m rest ≡ rejected (some 3)
    → rest ≡ rejected (some 3)
looked-unrejected none rest h = cc
looked-unrejected (some success) rest h = cc
looked-unrejected (some failed) rest h = cc
looked-unrejected (some other) rest h = h

confirm-unrejected :
    (look : ℕ → Option Status) (left i : ℕ) → confirm look left i ≢ rejected (some 3)
unfolding confirm
confirm-unrejected look zero i h = cc
confirm-unrejected look (suc left) i h =
    confirm-unrejected look left (suc i) (looked-unrejected (look i) (confirm look left (suc i)) h)

sent-IsConfirmed :
    (max_fee fee : ℕ) (server : Server) (m : Option Bool)
    → server.simulation ≡ some (succeeds fee)
    → fee ≤ max_fee
    → server.sent_pending ≡ m
    → after_send server m ≡ registered
    → IsConfirmed max_fee server
sent-IsConfirmed max_fee fee server none s le e h = cc
sent-IsConfirmed max_fee fee server (some false) s le e h = cc
sent-IsConfirmed max_fee fee server (some true) s le e h =
    let found = confirm-success server.get_transaction 20 0 h in
    ((fee, s, le), e, (found.0, omega (arith, found.1), found.2))

simulated-IsConfirmed :
    (max_fee : ℕ) (server : Server) (m : Option Simulation)
    → server.simulation ≡ m
    → after_simulation server max_fee m ≡ registered
    → IsConfirmed max_fee server
simulated-IsConfirmed max_fee server none e h = cc
simulated-IsConfirmed max_fee server (some (fails error)) e h = cc
simulated-IsConfirmed max_fee server (some (succeeds fee)) e h = within (ltb max_fee fee) refl h
  where
    within :
        (b : Bool)
        → ltb max_fee fee ≡ b
        → (if b then infrastructure_error else after_send server server.sent_pending) ≡ registered
        → IsConfirmed max_fee server
    within true over k = cc
    within false over k =
        sent-IsConfirmed max_fee fee server server.sent_pending e (ground (arith, over)) refl k

simulated-IsAlreadyThere :
    (max_fee : ℕ) (server : Server) (m : Option Simulation)
    → server.simulation ≡ m
    → after_simulation server max_fee m ≡ rejected (some 3)
    → IsAlreadyThere server
simulated-IsAlreadyThere max_fee server none e h = cc
simulated-IsAlreadyThere max_fee server (some (fails error)) e h = (error, e, code_of h)
  where
    code_of :
        rejected (parse_contract_error error) ≡ rejected (some 3)
        → parse_contract_error error ≡ some 3
    code_of k = cc
simulated-IsAlreadyThere max_fee server (some (succeeds fee)) e h =
    sent (ltb max_fee fee) server.sent_pending h
  where
    never :
        (look : ℕ → Option Status) (left i : ℕ)
        → confirm look left i ≡ rejected (some 3)
        → IsAlreadyThere server
    never look left i k = absurd (confirm-unrejected look left i k)

    sent :
        (b : Bool) (m : Option Bool)
        → (if b then infrastructure_error else after_send server m) ≡ rejected (some 3)
        → IsAlreadyThere server
    sent true m k = cc
    sent false none k = cc
    sent false (some false) k = cc
    sent false (some true) k = never server.get_transaction 20 0 k

module _ (is_address : Text → Bool) (contract_id : Text) (max_fee : ℕ) (server : Server)
    (p : Params) where
  abbrev outcome : Registration
  outcome = register_settlement is_address contract_id max_fee server p

  -- What the two outcomes that stand for a record rest on.
  register-standing :
      HasStanding outcome
      → (is_well_formed is_address contract_id p ≡ true)
        × (IsConfirmed max_fee server ⊎ IsAlreadyThere server)
  unfolding register_settlement
  register-standing h = formed (is_well_formed is_address contract_id p) server.has_account refl h
    where
      rest : Registration
      rest = after_simulation server max_fee server.simulation

      simulated : HasStanding rest → IsConfirmed max_fee server ⊎ IsAlreadyThere server
      simulated (inl done) = inl (simulated-IsConfirmed max_fee server server.simulation refl done)
      simulated (inr there) =
          inr (simulated-IsAlreadyThere max_fee server server.simulation refl there)

      formed :
          (b a : Bool)
          → is_well_formed is_address contract_id p ≡ b
          → HasStanding (if not b then threw else if not a then infrastructure_error else rest)
          → (is_well_formed is_address contract_id p ≡ true)
            × (IsConfirmed max_fee server ⊎ IsAlreadyThere server)
      formed true true e k = (e, simulated k)
      formed true false e (inl k) = cc
      formed true false e (inr k) = cc
      formed false a e (inl k) = cc
      formed false a e (inr k) = cc

  -- A success that /settle reports with a bond escrow configured, whose registration is what
  -- registerSettlement came to, was registered with well-formed parameters: either the RPC server
  -- simulated the registration within the fee ceiling, took it as pending and confirmed it in one of
  -- twenty looks, or the contract said that the settlement is registered already.
  pub settle-IsRegistered :
      (d : Deployment) (retry_max : ℕ) (script : ℕ → Attempt) (req : Request) (now : ℕ) (s : Shared)
      (q : Result)
      → d.has_bond_escrow ≡ true
      → d.registration ≡ outcome
      → (run_settle_pipeline d retry_max script req now s).1 ≡ answered q
      → q.success ≡ true
      → (is_well_formed is_address contract_id p ≡ true)
        × (IsConfirmed max_fee server ⊎ IsAlreadyThere server)
  settle-IsRegistered d retry_max script req now s q bond same e ok = register-standing (
      subst HasStanding same
        ((run_settle_pipeline-HasStanding d retry_max script req now s q e ok).1 bond))

-- ===== src/Catalog/Hook.antt =====
-- src/bazaar.ts: the onAfterSettle hook of registerBazaar, as one run of the catalog's operations. What
-- extractDiscoveryInfo finds is a value; the audit log, and the rotation extension with its call of
-- authorizeRotation, have no part here.
pub mod Effects
mod Tests
use vellar_facilitator.Base.{
  ℕ, Bool, true, false, Option, none, some, List, [], ◌∷◌, ◌++◌, if◌then◌else◌,
}
use vellar_facilitator.Base.Table.{Text}
use vellar_facilitator.Catalog.State.{Env, PaymentRequirements, DiscoveredResource, Catalog}
use vellar_facilitator.Catalog.Settlement.{record_settlement}
use vellar_facilitator.Catalog.Upsert.{
  CatalogOutcomeReason, Begun, rejected, cataloged, binding, begin_upsert, resume,
}
use vellar_facilitator.Catalog.Verify.{Probe, begin_reverify}
use vellar_facilitator.Catalog.Displace.{Claim, begin_displace, begin_probe}
use vellar_facilitator.Catalog.Events.{Event, upserts, binding_written, settles, reverifies, run}

-- What the hook is called with; `discovered` is what extractDiscoveryInfo yields.
pub record Payment : Type 0 where
  pub success : Bool
  pub requirements : PaymentRequirements
  pub payer : Option Text
  pub discovered : Option DiscoveredResource

-- An absent payTo counts as an empty one.
abbrev pub paid_to : Payment → Text
paid_to p = elim p.requirements.pay_to [ none ↦ [] | some pay_to ↦ pay_to ]

-- The CatalogOutcome of the capture slot.
pub data Outcome : Type 0 where
  unreported no_discovery_extension : Outcome
  reported : Begun → Outcome

-- What the hook leaves: the catalog, the outcome, and what it starts without waiting for it: the claim
-- of tryDisplace, its probe if that is begun at once, and the probe of reverify.
pub record Hooked : Type 0 where
  pub catalog : Catalog
  pub outcome : Outcome
  pub claim : Option Claim
  pub displacing : Option Probe
  pub probe : Option Probe

-- tryDisplace up to where it first waits: with a store that is the lookup of the marker, and with none,
-- where there is no marker, the probe.
unfoldable pub start_displacement : Env → ℕ → Option Claim → Catalog → Catalog × Option Probe
start_displacement env now none c = (c, none)
start_displacement env now (some claim) c =
    if c.has_store then (c, none) else begin_probe env now claim none c

-- After the wait for upsertFromPayment.
unfoldable pub follow_up : Env → ℕ → DiscoveredResource → Payment → Catalog × Begun → Hooked
follow_up env now d p (c, outcome) =
    let counted = (record_settlement env now d.resource_url p.payer (paid_to p) c).0 in
    let claim = begin_displace env d.resource_url (paid_to p) d counted in
    let started = start_displacement env now claim counted in
    let verifying = begin_reverify env now d.resource_url (paid_to p) started.0 in
    record {
      catalog = verifying.0;
      outcome = reported outcome;
      claim = claim;
      displacing = started.1;
      probe = verifying.1;
    }

abbrev pub hook_discovered :
    Env → ℕ → ℕ → Payment → Bool → List Event → Option DiscoveredResource → Catalog → Hooked
hook_discovered env now later p written between none c = record {
  catalog = c;
  outcome = no_discovery_extension;
  claim = none;
  displacing = none;
  probe = none;
}
hook_discovered env now later p written between (some d) c =
    let begun = begin_upsert env now d p.requirements c in
    follow_up env later d p (resume env written (run env between begun.0, begun.1))

-- The hook, with what else happens to the catalog while it waits for upsertFromPayment, and whether the
-- write that this waits for succeeds.
unfoldable pub on_after_settle : Env → ℕ → ℕ → Payment → Bool → List Event → Catalog → Hooked
on_after_settle env now later p written between c =
    if p.success
    then hook_discovered env now later p written between p.discovered c
    else record { catalog = c; outcome = unreported; claim = none; displacing = none; probe = none }

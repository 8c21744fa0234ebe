-- ===== src/Catalog/Events.antt =====
-- src/catalog.ts: histories of the catalog. An event is a stretch of code between two waits, so a
-- history is any interleaving of settlements, probes and writes to the store; what an event carries
-- over a wait may be anything. The flag of `displacement_written` is gets_past_store: with no store it
-- is true.
use vellar_facilitator.Base.{ℕ, Bool, Option, List, [], ◌∷◌}
use vellar_facilitator.Base.Table.{Text}
use vellar_facilitator.Ownership.{OwnershipVerdict}
use vellar_facilitator.Catalog.State.{Env, PaymentRequirements, DiscoveredResource, Catalog}
use vellar_facilitator.Catalog.Settlement.{record_settlement}
use vellar_facilitator.Catalog.Upsert.{Pending, begin_upsert, finish_upsert}
use vellar_facilitator.Catalog.Verify.{
  begin_reverify, end_reverify, begin_boot_probe, end_boot_probe,
}
use vellar_facilitator.Catalog.Displace.{
  Claim, RotationAuthorization, begin_probe, end_probe, end_rotation, end_displacement,
}

pub data Event : Type 0 where
  upserts : ℕ → DiscoveredResource → PaymentRequirements → Event
  binding_written : Pending → Bool → Event
  settles : ℕ → Text → Option Text → Text → Event
  reverifies : ℕ → Text → Text → Event
  reverified : ℕ → Text → Option OwnershipVerdict → Event
  boot_probes : Text → Event
  boot_probed : ℕ → Text → Option OwnershipVerdict → Event
  claims : ℕ → Claim → Option RotationAuthorization → Event
  claim_probed : ℕ → Claim → Option RotationAuthorization → Option OwnershipVerdict → Event
  rotation_written : Claim → Bool → Event
  displacement_written : ℕ → Claim → DiscoveredResource → PaymentRequirements → Bool → Event

unfoldable pub step : Env → Event → Catalog → Catalog
step env (upserts now discovered r) c = (begin_upsert env now discovered r c).0
step env (binding_written p written) c = (finish_upsert env p written c).0
step env (settles now url payer pay_to) c = (record_settlement env now url payer pay_to c).0
step env (reverifies now url pay_to) c = (begin_reverify env now url pay_to c).0
step env (reverified now key outcome) c = end_reverify env now key outcome c
step env (boot_probes key) c = (begin_boot_probe key c).0
step env (boot_probed now key outcome) c = end_boot_probe env now key outcome c
step env (claims now claim rotation) c = (begin_probe env now claim rotation c).0
step env (claim_probed now claim rotation outcome) c = (end_probe now claim rotation outcome c).0
step env (rotation_written claim moved) c = (end_rotation env claim moved c).0
step env (displacement_written now claim discovered r written) c =
    (end_displacement env now claim discovered r written c).0

unfoldable pub run : Env → List Event → Catalog → Catalog
run env [] c = c
run env (e ∷ es) c = run env es (step env e c)

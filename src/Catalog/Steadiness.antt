-- ===== src/Catalog/Steadiness.antt =====
-- src/catalog.ts: which events leave the recorded owner of a key.
use vellar_facilitator.Base.{
  ℕ, ◌≡◌, Bool, true, false, not, Option, none, some, List, [], ◌∷◌, arith, all,
}
use vellar_facilitator.Base.Table.{Text, find, put, find-put, drop_key, alter}
use vellar_facilitator.Base.Text.{same_text}
use vellar_facilitator.Ownership.{OwnershipVerdict, matched, mismatch, unverifiable, timeout}
use vellar_facilitator.Catalog.State.{
  Env, PaymentRequirements, DiscoveredResource, Catalog, key_of, entry_at,
}
use vellar_facilitator.Catalog.Settlement.{record_settlement}
use vellar_facilitator.Catalog.Upsert.{Pending, finish_upsert, upsert_from_payment}
use vellar_facilitator.Catalog.Verify.{
  begin_reverify, begin_boot_probe, note_verdict, land, latch_verified, settle_verdict,
  verdict_or_unverifiable, end_reverify,
}
use vellar_facilitator.Catalog.Displace.{
  Claim, end_probe, note_displace, set_owner, rebind_object, end_rotation, end_displacement,
}
use vellar_facilitator.Catalog.Untouched.{set_verified_owner-Untouched}
use vellar_facilitator.Catalog.Frame.{
  begin_upsert-related, upsert_from_payment-related, commit_binding-Untouched,
}
use vellar_facilitator.Catalog.Memory.{
  record_found-Untouched, reverify_found-Untouched, boot_probe_of-Untouched,
  end_boot_probe-Untouched, begin_probe-Untouched,
}
use vellar_facilitator.Catalog.Owner.{Holds, Holds-of_Untouched, Frame-Holds}
use vellar_facilitator.Catalog.Events.{
  Event, upserts, binding_written, settles, reverifies, reverified, boot_probes, boot_probed,
  claims, claim_probed, rotation_written, displacement_written, step, run,
}

-- Whether an event is the write, which succeeded, of the key's binding, rotation or displacement.
abbrev pub writes_owner : Text → Event → Bool
writes_owner key (binding_written p true) = same_text p.key key
writes_owner key (rotation_written claim true) = same_text claim.key key
writes_owner key (displacement_written now claim discovered r true) = same_text claim.key key
writes_owner key e = false

module _ (env : Env) (key : Text) (bound : List Text) where
  put_other-Holds :
      (k : Text) (b : List Text) (c : Catalog)
      → same_text k key ≡ false
      → Holds key bound c (record c { ownership = put k b c.ownership })
  put_other-Holds k b c other h = ground (arith, h, other, find-put k key b c.ownership)

  set_owner-Holds :
      (k claimant : Text) (c : Catalog)
      → same_text k key ≡ false
      → Holds key bound c (set_owner k claimant c)
  unfolding set_owner
  set_owner-Holds k claimant c other h = put_other-Holds k (claimant ∷ []) c other h

  binding_written-Holds :
      (p : Pending) (written : Bool) (c : Catalog)
      → writes_owner key (binding_written p written) ≡ false
      → Holds key bound c (finish_upsert env p written c).0
  unfolding finish_upsert
  binding_written-Holds p true c other h =
      Holds-of_Untouched key bound (commit_binding-Untouched env p c)
        (put_other-Holds p.key (p.pay_to ∷ []) c other h)
  binding_written-Holds p false c other h = h

  rotation_written-Holds :
      (claim : Claim) (moved : Bool) (c : Catalog)
      → writes_owner key (rotation_written claim moved) ≡ false
      → Holds key bound c (end_rotation env claim moved c).0
  unfolding end_rotation
  rotation_written-Holds claim true c other h =
      let rebound = record c { entries = alter (rebind_object claim) c.entries } in
      let owned = set_owner claim.key claim.claimant rebound in
      Holds-of_Untouched key bound (set_verified_owner-Untouched env claim.key true owned)
        (set_owner-Holds claim.key claim.claimant rebound other h)
  rotation_written-Holds claim false c other h = h

  displacement_written-Holds :
      (now : ℕ) (claim : Claim) (discovered : DiscoveredResource) (r : PaymentRequirements)
      (written : Bool) (c : Catalog)
      → writes_owner key (displacement_written now claim discovered r written) ≡ false
      → Holds key bound c (end_displacement env now claim discovered r written c).0
  unfolding end_displacement
  displacement_written-Holds now claim discovered r true c other h =
      let owned = set_owner claim.key claim.claimant c in
      let emptied = record owned { entries = drop_key claim.key owned.entries } in
      let again = upsert_from_payment env now discovered r true emptied in
      Holds-of_Untouched key bound (set_verified_owner-Untouched env claim.key true again.0) (
        upsert_from_payment-related (Holds key bound) (Frame-Holds key bound) env now discovered r
          true emptied (set_owner-Holds claim.key claim.claimant c other h))
  displacement_written-Holds now claim discovered r false c other h = h

  end_reverify-Holds :
      (now : ℕ) (k : Text) (outcome : Option OwnershipVerdict) (c : Catalog)
      → Holds key bound c (end_reverify env now k outcome c)
  unfolding end_reverify land note_verdict settle_verdict latch_verified
  end_reverify-Holds now k outcome c h =
      settled (verdict_or_unverifiable outcome)
        (note_verdict k (verdict_or_unverifiable outcome) now c) h
    where
      settled :
          (verdict : OwnershipVerdict) (d : Catalog)
          → Holds key bound d (settle_verdict env k verdict d)
      settled matched d h =
          Holds-of_Untouched key bound (set_verified_owner-Untouched env k true d) h
      settled mismatch d h = h
      settled unverifiable d h = h
      settled timeout d h = h

  step-Holds :
      (e : Event) (c : Catalog) → writes_owner key e ≡ false → Holds key bound c (step env e c)
  unfolding step record_settlement begin_reverify begin_boot_probe end_probe note_displace
  step-Holds (upserts now discovered r) c o =
      begin_upsert-related (Holds key bound) (Frame-Holds key bound) env now discovered r c
  step-Holds (binding_written p written) c o = binding_written-Holds p written c o
  step-Holds (settles now url payer pay_to) c o = Holds-of_Untouched key bound (
      record_found-Untouched now payer pay_to (key_of env url none)
        (entry_at c (key_of env url none)) c)
  step-Holds (reverifies now url pay_to) c o = Holds-of_Untouched key bound (
      reverify_found-Untouched env now pay_to (key_of env url none)
        (entry_at c (key_of env url none)) c)
  step-Holds (reverified now k outcome) c o = end_reverify-Holds now k outcome c
  step-Holds (boot_probes k) c o =
      Holds-of_Untouched key bound (boot_probe_of-Untouched k (find k c.entries) c)
  step-Holds (boot_probed now k outcome) c o =
      Holds-of_Untouched key bound (end_boot_probe-Untouched env now k outcome c)
  step-Holds (claims now claim rotation) c o =
      Holds-of_Untouched key bound (begin_probe-Untouched env now claim rotation c)
  step-Holds (claim_probed now claim rotation outcome) c o = λ h. h
  step-Holds (rotation_written claim moved) c o = rotation_written-Holds claim moved c o
  step-Holds (displacement_written now claim discovered r written) c o =
      displacement_written-Holds now claim discovered r written c o

-- Over an interleaving of events with no successful write of this key's binding, rotation or
-- displacement, a key that is bound keeps its recorded owners: no settlement, verdict, eviction or
-- change of another key moves them.
pub run-keeps_owner :
    (env : Env) (key : Text) (bound : List Text) (es : List Event) (c : Catalog)
    → all (λ e. not (writes_owner key e)) es ≡ true
    → find key c.ownership ≡ some bound
    → find key (run env es c).ownership ≡ some bound
unfolding run
run-keeps_owner env key bound [] c quiet h = h
run-keeps_owner env key bound (e ∷ es) c quiet h =
    run-keeps_owner env key bound es (step env e c) (ground (arith, quiet))
      (step-Holds env key bound e c (ground (arith, quiet)) h)

-- ===== src/Catalog/Memory.antt =====
-- src/catalog.ts: what the catalog never forgets.
use vellar_facilitator.Base.{
  ℕ, ◌≡◌, refl, Bool, true, false, ◌||◌, Option, none, some, List, [], ◌∷◌, arith, if_cases,
}
use vellar_facilitator.Base.Table.{Text, member, find, drop_key, alter, find-put, member-adjoin}
use vellar_facilitator.Ownership.{OwnershipVerdict, matched, mismatch, unverifiable, timeout}
use vellar_facilitator.Catalog.State.{
  Env, PaymentRequirements, DiscoveredResource, StoredEntry, Catalog, set_entry, entry_at, key_of,
  set_verified_owner,
}
use vellar_facilitator.Catalog.Settlement.{record_found, record_settlement, is_bound_owner}
use vellar_facilitator.Catalog.Upsert.{upsert_from_payment}
use vellar_facilitator.Catalog.Verify.{
  Probe, Probe, start_probe, may_reverify, reverify_found, begin_reverify, note_verdict,
  latch_verified, land, settle_verdict, verdict_or_unverifiable, end_reverify, boot_probe_of,
  begin_boot_probe, boot_verdict, end_boot_probe,
}
use vellar_facilitator.Catalog.Displace.{
  Claim, RotationAuthorization, may_probe, begin_probe, note_displace, end_probe, set_owner,
  rebind_object, end_rotation, end_displacement,
}
use vellar_facilitator.Catalog.Frame.{
  begin_upsert-related, finish_upsert-Remembers, upsert_from_payment-related, Frame-Remembers,
}
use vellar_facilitator.Catalog.Untouched.{
  Remembers, Remembers-refl, Remembers-trans, Remembers-of_Untouched, Untouched, Untouched-refl,
  set_verified_owner-Untouched,
}
use vellar_facilitator.Catalog.Events.{
  Event, upserts, binding_written, settles, reverifies, reverified, boot_probes, boot_probed,
  claims, claim_probed, rotation_written, displacement_written, step, run,
}

-- A step that leaves both fields as they are.
same :
    {c d : Catalog} → d.ownership ≡ c.ownership → d.ever_verified ≡ c.ever_verified → Untouched c d
same o l = record { same_ownership = o; same_latch = l }

pub record_found-Untouched :
    (now : ℕ) (payer : Option Text) (pay_to : Text) (key : Option Text) (found : Option StoredEntry)
    (c : Catalog)
    → Untouched c (record_found now payer pay_to key found c).0
unfolding record_found set_entry
record_found-Untouched now payer pay_to none found c = Untouched-refl c
record_found-Untouched now payer pay_to (some key) none c = Untouched-refl c
record_found-Untouched now payer pay_to (some key) (some entry) c =
    if_cases (λ (out : Catalog × Bool). Untouched c out.0) (is_bound_owner entry pay_to)
      (λ h. same refl refl) (λ h. Untouched-refl c)

pub reverify_found-Untouched :
    (env : Env) (now : ℕ) (pay_to : Text) (key : Option Text) (found : Option StoredEntry)
    (c : Catalog)
    → Untouched c (reverify_found env now pay_to key found c).0
unfolding reverify_found start_probe
reverify_found-Untouched env now pay_to none found c = Untouched-refl c
reverify_found-Untouched env now pay_to (some key) none c = Untouched-refl c
reverify_found-Untouched env now pay_to (some key) (some entry) c =
    if_cases (λ (out : Catalog × Option Probe). Untouched c out.0)
      (may_reverify env now key pay_to entry c) (λ h. same refl refl) (λ h. Untouched-refl c)

pub boot_probe_of-Untouched :
    (key : Text) (found : Option StoredEntry) (c : Catalog)
    → Untouched c (boot_probe_of key found c).0
unfolding boot_probe_of start_probe
boot_probe_of-Untouched key none c = Untouched-refl c
boot_probe_of-Untouched key (some entry) c =
    if_cases (λ (out : Catalog × Option Probe). Untouched c out.0)
      (entry.verified_owner || member key c.verify_in_flight) (λ h. Untouched-refl c)
      (λ h. same refl refl)

boot_verdict-Untouched :
    (env : Env) (key : Text) (verdict : OwnershipVerdict) (c : Catalog)
    → Untouched c (boot_verdict env key verdict c)
unfolding boot_verdict
boot_verdict-Untouched env key matched c = set_verified_owner-Untouched env key true c
boot_verdict-Untouched env key mismatch c = Untouched-refl c
boot_verdict-Untouched env key unverifiable c = Untouched-refl c
boot_verdict-Untouched env key timeout c = Untouched-refl c

pub end_boot_probe-Untouched :
    (env : Env) (now : ℕ) (key : Text) (outcome : Option OwnershipVerdict) (c : Catalog)
    → Untouched c (end_boot_probe env now key outcome c)
unfolding end_boot_probe land note_verdict
end_boot_probe-Untouched env now key none c = same refl refl
end_boot_probe-Untouched env now key (some verdict) c =
    let judged = boot_verdict-Untouched env key verdict (note_verdict key verdict now c) in
    same judged.same_ownership judged.same_latch

settle_verdict-Remembers :
    (env : Env) (key : Text) (verdict : OwnershipVerdict) (c : Catalog)
    → Remembers c (settle_verdict env key verdict c)
unfolding settle_verdict latch_verified
settle_verdict-Remembers env key matched c =
    let badge = set_verified_owner env key true c in
    Remembers-trans (Remembers-of_Untouched (set_verified_owner-Untouched env key true c)) (record {
      owned = λ k h. h;
      latched = λ k h. ground (arith, h, member-adjoin k key badge.ever_verified);
    })
settle_verdict-Remembers env key mismatch c = Remembers-refl c
settle_verdict-Remembers env key unverifiable c = Remembers-refl c
settle_verdict-Remembers env key timeout c = Remembers-refl c

end_reverify-Remembers :
    (env : Env) (now : ℕ) (key : Text) (outcome : Option OwnershipVerdict) (c : Catalog)
    → Remembers c (end_reverify env now key outcome c)
unfolding end_reverify land note_verdict
end_reverify-Remembers env now key outcome c =
    let verdict = verdict_or_unverifiable outcome in
    let kept = settle_verdict-Remembers env key verdict (note_verdict key verdict now c) in
    record { owned = kept.owned; latched = kept.latched }

pub begin_probe-Untouched :
    (env : Env) (now : ℕ) (claim : Claim) (rotation : Option RotationAuthorization) (c : Catalog)
    → Untouched c (begin_probe env now claim rotation c).0
unfolding begin_probe
begin_probe-Untouched env now claim rotation c =
    if_cases (λ (out : Catalog × Option Probe). Untouched c out.0)
      (may_probe env now claim rotation c) (λ h. same refl refl) (λ h. Untouched-refl c)

set_owner-Remembers : (key claimant : Text) (c : Catalog) → Remembers c (set_owner key claimant c)
unfolding set_owner
set_owner-Remembers key claimant c = record {
  owned = λ k h. ground (arith, h, find-put key k (claimant ∷ []) c.ownership);
  latched = λ k h. ground (arith, h, member-adjoin k key c.ever_verified);
}

end_rotation-Remembers :
    (env : Env) (claim : Claim) (moved : Bool) (c : Catalog)
    → Remembers c (end_rotation env claim moved c).0
unfolding end_rotation
end_rotation-Remembers env claim false c = Remembers-refl c
end_rotation-Remembers env claim true c =
    let rebound = record c { entries = alter (rebind_object claim) c.entries } in
    let first : Remembers c rebound = record { owned = λ k h. h; latched = λ k h. h } in
    let owned = set_owner claim.key claim.claimant rebound in
    Remembers-trans first (
      Remembers-trans (set_owner-Remembers claim.key claim.claimant rebound)
        (Remembers-of_Untouched (set_verified_owner-Untouched env claim.key true owned)))

end_displacement-Remembers :
    (env : Env) (now : ℕ) (claim : Claim) (discovered : DiscoveredResource)
    (r : PaymentRequirements) (written : Bool) (c : Catalog)
    → Remembers c (end_displacement env now claim discovered r written c).0
unfolding end_displacement
end_displacement-Remembers env now claim discovered r false c = Remembers-refl c
end_displacement-Remembers env now claim discovered r true c =
    let owned = set_owner claim.key claim.claimant c in
    let emptied = record owned { entries = drop_key claim.key owned.entries } in
    let dropped : Remembers owned emptied = record { owned = λ k h. h; latched = λ k h. h } in
    let again = upsert_from_payment env now discovered r true emptied in
    Remembers-trans (set_owner-Remembers claim.key claim.claimant c) (
      Remembers-trans dropped (
        Remembers-trans
          (upsert_from_payment-related Remembers Frame-Remembers env now discovered r true emptied)
          (Remembers-of_Untouched (set_verified_owner-Untouched env claim.key true again.0))))

pub step-Remembers : (env : Env) (e : Event) (c : Catalog) → Remembers c (step env e c)
unfolding step record_settlement begin_reverify begin_boot_probe end_probe note_displace
step-Remembers env (upserts now discovered r) c =
    begin_upsert-related Remembers Frame-Remembers env now discovered r c
step-Remembers env (binding_written p written) c = finish_upsert-Remembers env p written c
step-Remembers env (settles now url payer pay_to) c = Remembers-of_Untouched (
    record_found-Untouched now payer pay_to (key_of env url none) (entry_at c (key_of env url none))
      c)
step-Remembers env (reverifies now url pay_to) c = Remembers-of_Untouched (
    reverify_found-Untouched env now pay_to (key_of env url none) (entry_at c (key_of env url none))
      c)
step-Remembers env (reverified now key outcome) c = end_reverify-Remembers env now key outcome c
step-Remembers env (boot_probes key) c =
    Remembers-of_Untouched (boot_probe_of-Untouched key (find key c.entries) c)
step-Remembers env (boot_probed now key outcome) c =
    Remembers-of_Untouched (end_boot_probe-Untouched env now key outcome c)
step-Remembers env (claims now claim rotation) c =
    Remembers-of_Untouched (begin_probe-Untouched env now claim rotation c)
step-Remembers env (claim_probed now claim rotation outcome) c =
    Remembers-of_Untouched (same refl refl)
step-Remembers env (rotation_written claim moved) c = end_rotation-Remembers env claim moved c
step-Remembers env (displacement_written now claim discovered r written) c =
    end_displacement-Remembers env now claim discovered r written c

-- Over any interleaving of events, a key with an ownership record keeps one, through evictions too,
-- and a key that was proven once stays proven.
pub run-Remembers : (env : Env) (es : List Event) (c : Catalog) → Remembers c (run env es c)
unfolding run
run-Remembers env [] c = Remembers-refl c
run-Remembers env (e ∷ es) c =
    Remembers-trans (step-Remembers env e c) (run-Remembers env es (step env e c))

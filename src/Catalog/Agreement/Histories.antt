-- ===== src/Catalog/Agreement/Histories.antt =====
-- src/catalog.ts: over which histories the two copies of a binding agree.
use vellar_facilitator.Base.{
  ℕ, ◌≡◌, Bool, true, false, not, ◌||◌, Option, none, some, List, [], ◌∷◌, arith, if_cases, all,
}
use vellar_facilitator.Base.Table.{Text, find, member}
use vellar_facilitator.Ownership.{OwnershipVerdict, matched, mismatch, unverifiable, timeout}
use vellar_facilitator.Catalog.State.{Env, StoredEntry, Catalog, key_of, entry_at}
use vellar_facilitator.Catalog.Upsert.{finish_upsert}
use vellar_facilitator.Catalog.Verify.{
  Probe, Probe, may_reverify, start_probe, reverify_found, begin_reverify, note_verdict,
  latch_verified, land, settle_verdict, verdict_or_unverifiable, end_reverify, boot_probe_of,
  begin_boot_probe, boot_verdict, end_boot_probe,
}
use vellar_facilitator.Catalog.Displace.{
  may_probe, begin_probe, note_displace, end_probe, end_rotation,
}
use vellar_facilitator.Catalog.Events.{
  Event, upserts, binding_written, settles, reverifies, reverified, boot_probes, boot_probed,
  claims, claim_probed, rotation_written, displacement_written, step, run,
}
use vellar_facilitator.Catalog.Agreement.{Mirrors, set_verified_owner-Mirrors}
use vellar_facilitator.Catalog.Agreement.Writes.{
  begin_upsert-Mirrors, commit_binding-Mirrors, settles-Mirrors, displacement-Mirrors,
}

reverify_found-Mirrors :
    (env : Env) (now : ℕ) (pay_to : Text) (key : Option Text) (found : Option StoredEntry)
    (c : Catalog)
    → Mirrors c
    → Mirrors (reverify_found env now pay_to key found c).0
unfolding reverify_found start_probe
reverify_found-Mirrors env now pay_to none found c agrees = agrees
reverify_found-Mirrors env now pay_to (some key) none c agrees = agrees
reverify_found-Mirrors env now pay_to (some key) (some entry) c agrees =
    if_cases (λ (out : Catalog × Option Probe). Mirrors out.0)
      (may_reverify env now key pay_to entry c) (λ h. agrees) (λ h. agrees)

boot_probe_of-Mirrors :
    (key : Text) (found : Option StoredEntry) (c : Catalog)
    → Mirrors c
    → Mirrors (boot_probe_of key found c).0
unfolding boot_probe_of start_probe
boot_probe_of-Mirrors key none c agrees = agrees
boot_probe_of-Mirrors key (some entry) c agrees =
    if_cases (λ (out : Catalog × Option Probe). Mirrors out.0)
      (entry.verified_owner || member key c.verify_in_flight) (λ h. agrees) (λ h. agrees)

end_reverify-Mirrors :
    (env : Env) (now : ℕ) (key : Text) (outcome : Option OwnershipVerdict) (c : Catalog)
    → Mirrors c
    → Mirrors (end_reverify env now key outcome c)
unfolding end_reverify land note_verdict settle_verdict latch_verified
end_reverify-Mirrors env now key outcome c agrees =
    go (verdict_or_unverifiable outcome) (note_verdict key (verdict_or_unverifiable outcome) now c)
      agrees
  where
    go :
        (verdict : OwnershipVerdict) (d : Catalog)
        → Mirrors d
        → Mirrors (settle_verdict env key verdict d)
    go matched d a = set_verified_owner-Mirrors env key true d a
    go mismatch d a = a
    go unverifiable d a = a
    go timeout d a = a

end_boot_probe-Mirrors :
    (env : Env) (now : ℕ) (key : Text) (outcome : Option OwnershipVerdict) (c : Catalog)
    → Mirrors c
    → Mirrors (end_boot_probe env now key outcome c)
unfolding end_boot_probe land note_verdict boot_verdict
end_boot_probe-Mirrors env now key none c agrees = agrees
end_boot_probe-Mirrors env now key (some matched) c agrees =
    set_verified_owner-Mirrors env key true (note_verdict key matched now c) agrees
end_boot_probe-Mirrors env now key (some mismatch) c agrees = agrees
end_boot_probe-Mirrors env now key (some unverifiable) c agrees = agrees
end_boot_probe-Mirrors env now key (some timeout) c agrees = agrees

-- A rotation that was written.
abbrev pub rotates : Event → Bool
rotates (rotation_written claim true) = true
rotates e = false

step-Mirrors :
    (env : Env) (e : Event) (c : Catalog) → rotates e ≡ false → Mirrors c → Mirrors (step env e c)
unfolding step finish_upsert end_rotation begin_reverify begin_boot_probe begin_probe end_probe
    note_displace
step-Mirrors env (upserts now discovered r) c q agrees =
    begin_upsert-Mirrors env now discovered r c agrees
step-Mirrors env (binding_written p true) c q agrees = commit_binding-Mirrors env p c agrees
step-Mirrors env (binding_written p false) c q agrees = agrees
step-Mirrors env (settles now url payer pay_to) c q agrees =
    settles-Mirrors env now url payer pay_to c agrees
step-Mirrors env (reverifies now url pay_to) c q agrees =
    reverify_found-Mirrors env now pay_to (key_of env url none) (entry_at c (key_of env url none)) c
      agrees
step-Mirrors env (reverified now key outcome) c q agrees =
    end_reverify-Mirrors env now key outcome c agrees
step-Mirrors env (boot_probes key) c q agrees =
    boot_probe_of-Mirrors key (find key c.entries) c agrees
step-Mirrors env (boot_probed now key outcome) c q agrees =
    end_boot_probe-Mirrors env now key outcome c agrees
step-Mirrors env (claims now claim rotation) c q agrees =
    if_cases (λ (out : Catalog × Option Probe). Mirrors out.0) (may_probe env now claim rotation c)
      (λ h. agrees) (λ h. agrees)
step-Mirrors env (claim_probed now claim rotation outcome) c q agrees = agrees
step-Mirrors env (rotation_written claim true) c q agrees = cc
step-Mirrors env (rotation_written claim false) c q agrees = agrees
step-Mirrors env (displacement_written now claim discovered r written) c q agrees =
    displacement-Mirrors env now claim discovered r written c agrees

-- From a catalog in which the binding that each entry carries is its key's ownership record, every
-- interleaving of events in which no rotation is written leads to such a catalog.
pub run-Mirrors :
    (env : Env) (es : List Event) (c : Catalog)
    → all (λ e. not (rotates e)) es ≡ true
    → Mirrors c
    → Mirrors (run env es c)
unfolding run
run-Mirrors env [] c quiet agrees = agrees
run-Mirrors env (e ∷ es) c quiet agrees =
    run-Mirrors env es (step env e c) (ground (arith, quiet))
      (step-Mirrors env e c (ground (arith, quiet)) agrees)

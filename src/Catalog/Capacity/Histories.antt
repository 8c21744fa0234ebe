-- ===== src/Catalog/Capacity/Histories.antt =====
-- src/catalog.ts: the cap over histories.
use vellar_facilitator.Base.{
  ℕ, ◌≡◌, refl, Bool, true, false, ◌||◌, Option, none, some, List, [], ◌∷◌, arith, if_cases,
}
use vellar_facilitator.Base.Table.{Text, find, member, alter}
use vellar_facilitator.Ownership.{OwnershipVerdict, matched, mismatch, unverifiable, timeout}
use vellar_facilitator.Catalog.State.{Env, StoredEntry, Catalog, key_of, entry_at}
use vellar_facilitator.Catalog.Settlement.{
  record_settlement, record_found, is_bound_owner, count_settlement,
}
use vellar_facilitator.Catalog.Upsert.{finish_upsert}
use vellar_facilitator.Catalog.Verify.{
  Probe, Probe, may_reverify, start_probe, reverify_found, begin_reverify, note_verdict,
  latch_verified, land, settle_verdict, verdict_or_unverifiable, end_reverify, boot_probe_of,
  begin_boot_probe, boot_verdict, end_boot_probe,
}
use vellar_facilitator.Catalog.Displace.{
  may_probe, begin_probe, note_displace, end_probe, end_rotation, rebind_object, set_owner,
}
use vellar_facilitator.Catalog.Events.{
  Event, upserts, binding_written, settles, reverifies, reverified, boot_probes, boot_probed,
  claims, claim_probed, rotation_written, displacement_written, step, run,
}
use vellar_facilitator.Catalog.Capacity.{times-alter, length-alter, IsCapped}
use vellar_facilitator.Catalog.Capacity.Writes.{
  set_entry-IsCapped, set_verified_owner-IsCapped, commit_binding-IsCapped, begin_upsert-IsCapped,
  displacement-IsCapped,
}

settled-IsCapped :
    (now : ℕ) (payer : Option Text) (pay_to : Text) (key : Option Text) (c : Catalog)
    → IsCapped c
    → IsCapped (record_found now payer pay_to key (entry_at c key) c).0
unfolding record_found entry_at
settled-IsCapped now payer pay_to none c capped = capped
settled-IsCapped now payer pay_to (some key) c capped = go (find key c.entries) refl
  where
    go :
        (found : Option StoredEntry)
        → find key c.entries ≡ found
        → IsCapped (record_found now payer pay_to (some key) found c).0
    go none h = capped
    go (some entry) h =
        if_cases (λ (out : Catalog × Bool). IsCapped out.0) (is_bound_owner entry pay_to)
          (λ i.
            set_entry-IsCapped key (record entry { stats = count_settlement now payer entry.stats })
              entry c h capped)
          (λ i. capped)

reverify_found-IsCapped :
    (env : Env) (now : ℕ) (pay_to : Text) (key : Option Text) (found : Option StoredEntry)
    (c : Catalog)
    → IsCapped c
    → IsCapped (reverify_found env now pay_to key found c).0
unfolding reverify_found start_probe
reverify_found-IsCapped env now pay_to none found c capped = capped
reverify_found-IsCapped env now pay_to (some key) none c capped = capped
reverify_found-IsCapped env now pay_to (some key) (some entry) c capped =
    if_cases (λ (out : Catalog × Option Probe). IsCapped out.0)
      (may_reverify env now key pay_to entry c) (λ h. capped) (λ h. capped)

boot_probe_of-IsCapped :
    (key : Text) (found : Option StoredEntry) (c : Catalog)
    → IsCapped c
    → IsCapped (boot_probe_of key found c).0
unfolding boot_probe_of start_probe
boot_probe_of-IsCapped key none c capped = capped
boot_probe_of-IsCapped key (some entry) c capped =
    if_cases (λ (out : Catalog × Option Probe). IsCapped out.0)
      (entry.verified_owner || member key c.verify_in_flight) (λ h. capped) (λ h. capped)

settle_verdict-IsCapped :
    (env : Env) (key : Text) (verdict : OwnershipVerdict) (c : Catalog)
    → IsCapped c
    → IsCapped (settle_verdict env key verdict c)
unfolding settle_verdict latch_verified
settle_verdict-IsCapped env key matched c capped = set_verified_owner-IsCapped env key true c capped
settle_verdict-IsCapped env key mismatch c capped = capped
settle_verdict-IsCapped env key unverifiable c capped = capped
settle_verdict-IsCapped env key timeout c capped = capped

end_boot_probe-IsCapped :
    (env : Env) (now : ℕ) (key : Text) (outcome : Option OwnershipVerdict) (c : Catalog)
    → IsCapped c
    → IsCapped (end_boot_probe env now key outcome c)
unfolding end_boot_probe land note_verdict boot_verdict
end_boot_probe-IsCapped env now key none c capped = capped
end_boot_probe-IsCapped env now key (some matched) c capped =
    set_verified_owner-IsCapped env key true (note_verdict key matched now c) capped
end_boot_probe-IsCapped env now key (some mismatch) c capped = capped
end_boot_probe-IsCapped env now key (some unverifiable) c capped = capped
end_boot_probe-IsCapped env now key (some timeout) c capped = capped

step-IsCapped : (env : Env) (e : Event) (c : Catalog) → IsCapped c → IsCapped (step env e c)
unfolding step finish_upsert end_rotation begin_reverify begin_boot_probe begin_probe end_probe
    note_displace record_settlement end_reverify land note_verdict set_owner
step-IsCapped env (upserts now discovered r) c capped =
    begin_upsert-IsCapped env now discovered r c capped
step-IsCapped env (binding_written p true) c capped = commit_binding-IsCapped env p c capped
step-IsCapped env (binding_written p false) c capped = capped
step-IsCapped env (settles now url payer pay_to) c capped =
    settled-IsCapped now payer pay_to (key_of env url none) c capped
step-IsCapped env (reverifies now url pay_to) c capped =
    reverify_found-IsCapped env now pay_to (key_of env url none) (entry_at c (key_of env url none))
      c capped
step-IsCapped env (reverified now key outcome) c capped =
    settle_verdict-IsCapped env key (verdict_or_unverifiable outcome)
      (note_verdict key (verdict_or_unverifiable outcome) now c) capped
step-IsCapped env (boot_probes key) c capped =
    boot_probe_of-IsCapped key (find key c.entries) c capped
step-IsCapped env (boot_probed now key outcome) c capped =
    end_boot_probe-IsCapped env now key outcome c capped
step-IsCapped env (claims now claim rotation) c capped =
    if_cases (λ (out : Catalog × Option Probe). IsCapped out.0) (may_probe env now claim rotation c)
      (λ h. capped) (λ h. capped)
step-IsCapped env (claim_probed now claim rotation outcome) c capped = capped
step-IsCapped env (rotation_written claim true) c capped =
    set_verified_owner-IsCapped env claim.key true
      (set_owner claim.key claim.claimant
        (record c { entries = alter (rebind_object claim) c.entries }))
      (
        λ k. omega (arith, capped.0 k, times-alter (rebind_object claim) k c.entries),
        omega (arith, capped.1, length-alter (rebind_object claim) c.entries),
      )
step-IsCapped env (rotation_written claim false) c capped = capped
step-IsCapped env (displacement_written now claim discovered r written) c capped =
    displacement-IsCapped env now discovered r claim written c capped

-- From a catalog whose keys are distinct and that has at most 10,000 entries, every interleaving of
-- settlements, probes and writes leads to such a catalog: it never grows over its cap.
pub run-IsCapped :
    (env : Env) (es : List Event) (c : Catalog) → IsCapped c → IsCapped (run env es c)
unfolding run
run-IsCapped env [] c capped = capped
run-IsCapped env (e ∷ es) c capped =
    run-IsCapped env es (step env e c) (step-IsCapped env e c capped)

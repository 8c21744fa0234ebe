-- ===== src/Catalog/Capacity/Writes.antt =====
-- src/catalog.ts: the writes of entries keep the cap.
use vellar_facilitator.Base.{
  ℕ, suc, ◌≤◌, ◌≡◌, refl, Bool, true, false, Option, none, some, List, [], ◌∷◌, arith, if_cases,
  length, leb,
}
use vellar_facilitator.Base.Table.{Text, find, put, drop_key, is_some}
use vellar_facilitator.Catalog.Key.{canonical_pay_to}
use vellar_facilitator.Catalog.State.{
  Env, PaymentRequirements, DiscoveredResource, DiscoveryResource, SettlementStats, StoredEntry,
  Catalog, key_of, entry_at, tool_name_of, frozen_on_ownership, max_tombstones, set_entry,
  mark_verified, set_verified_owner, is_structurally_unverifiable,
}
use vellar_facilitator.Catalog.Upsert.{
  CatalogOutcomeReason, Pending, Begun, rejected, cataloged, binding, write_first, write_update,
  binding_or, no_stats, commit_binding, begin_binding, store_resource, refuse_or, ownership_guard,
  upsert_with_pay_to, upsert_routable, upsert_at, is_routable, begin_upsert, finish_upsert, resume,
  upsert_from_payment, build_resource, add_accept, accepts_of, warn_unverifiable, write_entry,
}
use vellar_facilitator.Catalog.Displace.{Claim, set_owner, end_displacement}
use vellar_facilitator.Catalog.Capacity.{
  times, times-put, length-put, times-find, times-drop_key, length-drop_key, IsCapped,
  evict_to_cap-IsCapped,
}

-- A change of an entry that is there.
pub set_entry-IsCapped :
    (key : Text) (entry held : StoredEntry) (c : Catalog)
    → find key c.entries ≡ some held
    → IsCapped c
    → IsCapped (set_entry key entry c)
unfolding set_entry
set_entry-IsCapped key entry held c h capped = (
  λ k. ground (arith, capped.0 k, times-put k key entry c.entries (capped.0 key)),
  ground (arith, capped.1, length-put key entry c.entries, times-find key held c.entries h),
)

pub write_entry-IsCapped :
    (env : Env) (key : Text) (resource : DiscoveryResource) (stats : SettlementStats)
    (restored : Bool) (bound : List Text) (verified : Bool) (c : Catalog)
    → IsCapped c
    → IsCapped (write_entry env key resource stats restored bound verified c)
unfolding write_entry warn_unverifiable set_entry
write_entry-IsCapped env key resource stats restored bound verified c capped =
    let entry : StoredEntry = record {
      object = c.next_object;
      resource = resource;
      stats = stats;
      restored = restored;
      bound_pay_to = bound;
      verified_owner = verified;
    } in
    let written = set_entry key entry (record c { next_object = suc c.next_object }) in
    evict_to_cap-IsCapped (warn_unverifiable env key written) (
      if_cases (λ (d : Catalog). (k : Text) → times k d.entries ≤ 1)
        (is_structurally_unverifiable env key)
        (λ h k. ground (arith, capped.0 k, times-put k key entry c.entries (capped.0 key)))
        (λ h k. ground (arith, capped.0 k, times-put k key entry c.entries (capped.0 key))))

mark_verified-IsCapped :
    (verified : Bool) (key : Option Text) (c : Catalog)
    → IsCapped c
    → IsCapped (mark_verified verified key (entry_at c key) c)
unfolding mark_verified entry_at
mark_verified-IsCapped verified none c capped = capped
mark_verified-IsCapped verified (some key) c capped = go (find key c.entries) refl
  where
    go :
        (found : Option StoredEntry)
        → find key c.entries ≡ found
        → IsCapped (mark_verified verified (some key) found c)
    go none h = capped
    go (some entry) h =
        set_entry-IsCapped key (record entry { verified_owner = verified }) entry c h capped

pub set_verified_owner-IsCapped :
    (env : Env) (url : Text) (verified : Bool) (c : Catalog)
    → IsCapped c
    → IsCapped (set_verified_owner env url verified c)
unfolding set_verified_owner
set_verified_owner-IsCapped env url verified c capped =
    mark_verified-IsCapped verified (key_of env url none) c capped

module _ (env : Env) where
  pub commit_binding-IsCapped :
      (p : Pending) (c : Catalog) → IsCapped c → IsCapped (commit_binding env p c)
  unfolding commit_binding write_first
  commit_binding-IsCapped p c capped =
      let bound = put p.key (p.pay_to ∷ []) c.ownership in
      write_entry-IsCapped env p.key p.resource no_stats false
        (binding_or p.pay_to (find p.key bound)) false (record c { ownership = bound }) capped

  begin_binding-IsCapped :
      (p : Pending) (c : Catalog) → IsCapped c → IsCapped (begin_binding env p c).0
  unfolding begin_binding write_first
  begin_binding-IsCapped p c capped =
      let P = λ (out : Catalog × Begun). IsCapped out.0 in
      if_cases P (frozen_on_ownership c.frozen) (λ h. capped)
        (λ h.
          if_cases P (is_some (find p.key c.ownership))
            (λ i.
              write_entry-IsCapped env p.key p.resource no_stats false
                (binding_or p.pay_to (find p.key c.ownership)) false c capped)
            (λ i.
              if_cases P (leb max_tombstones (length c.ownership)) (λ j. capped)
                (λ j.
                  if_cases P c.has_store (λ k. capped) (λ k. commit_binding-IsCapped p c capped))))

  store_resource-IsCapped :
      (key pay_to : Text) (existing : Option StoredEntry) (resource : Option DiscoveryResource)
      (c : Catalog)
      → IsCapped c
      → IsCapped (store_resource env key pay_to existing resource c).0
  unfolding store_resource write_update
  store_resource-IsCapped key pay_to existing none c capped = capped
  store_resource-IsCapped key pay_to none (some resource) c capped =
      begin_binding-IsCapped (record { key = key; pay_to = pay_to; resource = resource }) c capped
  store_resource-IsCapped key pay_to (some e) (some resource) c capped =
      write_entry-IsCapped env key resource e.stats e.restored e.bound_pay_to e.verified_owner c
        capped

  refuse_or-IsCapped :
      (reason : Option CatalogOutcomeReason) (c : Catalog) (out : Catalog × Begun)
      → IsCapped c
      → IsCapped out.0
      → IsCapped (refuse_or reason c out).0
  refuse_or-IsCapped none c out before capped = capped
  refuse_or-IsCapped (some why) c out before capped = before

  module _ (now : ℕ) (discovered : DiscoveredResource) (r : PaymentRequirements) where
    upsert_routable-IsCapped :
        (key : Text) (pay_to : Option Text) (c : Catalog)
        → IsCapped c
        → IsCapped (upsert_routable env now discovered r key pay_to c).0
    unfolding upsert_with_pay_to
    upsert_routable-IsCapped key none c capped = capped
    upsert_routable-IsCapped key (some pay_to) c capped =
        let existing = find key c.entries in
        let resource =
          build_resource env now discovered
            (add_accept (record r { pay_to = some pay_to }) (accepts_of existing)) in
        refuse_or-IsCapped (ownership_guard pay_to existing (find key c.ownership)) c
          (store_resource env key pay_to existing resource c) capped
          (store_resource-IsCapped key pay_to existing resource c capped)

    upsert_at-IsCapped :
        (key : Option Text) (c : Catalog)
        → IsCapped c
        → IsCapped (upsert_at env now discovered r key c).0
    unfolding upsert_at
    upsert_at-IsCapped none c capped = capped
    upsert_at-IsCapped (some key) c capped =
        if_cases (λ (out : Catalog × Begun). IsCapped out.0) (is_routable env discovered r)
          (λ h. upsert_routable-IsCapped key (canonical_pay_to r.pay_to) c capped) (λ h. capped)

    pub begin_upsert-IsCapped :
        (c : Catalog) → IsCapped c → IsCapped (begin_upsert env now discovered r c).0
    unfolding begin_upsert
    begin_upsert-IsCapped c capped =
        upsert_at-IsCapped (key_of env discovered.resource_url (tool_name_of discovered)) c capped

    resume-IsCapped :
        (written : Bool) (out : Catalog × Begun)
        → IsCapped out.0
        → IsCapped (resume env written out).0
    unfolding finish_upsert
    resume-IsCapped written (d, rejected reason) capped = capped
    resume-IsCapped written (d, cataloged first) capped = capped
    resume-IsCapped true (d, binding p) capped = commit_binding-IsCapped p d capped
    resume-IsCapped false (d, binding p) capped = capped

    pub displacement-IsCapped :
        (claim : Claim) (written : Bool) (c : Catalog)
        → IsCapped c
        → IsCapped (end_displacement env now claim discovered r written c).0
    unfolding end_displacement set_owner upsert_from_payment
    displacement-IsCapped claim false c capped = capped
    displacement-IsCapped claim true c capped =
        let owned = set_owner claim.key claim.claimant c in
        let emptied = record owned { entries = drop_key claim.key owned.entries } in
        set_verified_owner-IsCapped env claim.key true
          (upsert_from_payment env now discovered r true emptied).0
          (resume-IsCapped true (begin_upsert env now discovered r emptied) (
            begin_upsert-IsCapped emptied (
              λ k. ground (arith, capped.0 k, times-drop_key k claim.key c.entries),
              omega (arith, capped.1, length-drop_key claim.key c.entries),
            )))

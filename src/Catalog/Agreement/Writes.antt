-- ===== src/Catalog/Agreement/Writes.antt =====
-- src/catalog.ts: upsertFromPayment, recordSettlement and the write of a displacement keep the two
-- copies of a binding in agreement.
use vellar_facilitator.Base.{
  ℕ, ◌≡◌, refl, Bool, true, false, Option, none, some, List, [], ◌∷◌, arith, if_cases, length, leb,
}
use vellar_facilitator.Base.Table.{Text, find, put, find-put, find-drop_key, drop_key, is_some}
use vellar_facilitator.Base.Text.{same_text_refl}
use vellar_facilitator.Catalog.Key.{canonical_pay_to}
use vellar_facilitator.Catalog.State.{
  Env, PaymentRequirements, DiscoveredResource, DiscoveryResource, StoredEntry, Catalog, key_of,
  entry_at, tool_name_of, frozen_on_ownership, max_tombstones,
}
use vellar_facilitator.Catalog.Settlement.{
  record_settlement, record_found, is_bound_owner, count_settlement,
}
use vellar_facilitator.Catalog.Upsert.{
  CatalogOutcomeReason, Pending, Begun, rejected, cataloged, binding, write_first, write_update,
  binding_or, no_stats, commit_binding, begin_binding, store_resource, refuse_or, ownership_guard,
  upsert_with_pay_to, upsert_routable, upsert_at, is_routable, begin_upsert, finish_upsert, resume,
  upsert_from_payment, build_resource, add_accept, accepts_of,
}
use vellar_facilitator.Catalog.Displace.{Claim, set_owner, end_displacement}
use vellar_facilitator.Catalog.Agreement.{
  Mirrors, MirrorsBut, set_entry-Mirrors, write_entry-Mirrors, set_verified_owner-Mirrors,
}

MirrorsBut-of_Agrees : (key : Text) (c : Catalog) → Mirrors c → MirrorsBut key c
MirrorsBut-of_Agrees key c agrees k entry other h = agrees k entry h

module _ (env : Env) where
  write_first-Mirrors :
      (p : Pending) (c : Catalog)
      → MirrorsBut p.key c
      → is_some (find p.key c.ownership) ≡ true
      → Mirrors (write_first env p c)
  unfolding write_first
  write_first-Mirrors p c others owned = go (find p.key c.ownership) refl owned
    where
      go :
          (found : Option (List Text))
          → find p.key c.ownership ≡ found
          → is_some found ≡ true
          → Mirrors (write_first env p c)
      go none h o = cc
      go (some bound) h o =
          write_entry-Mirrors env p.key p.resource no_stats false
            (binding_or p.pay_to (find p.key c.ownership)) false c others (rw h refl)

  pub commit_binding-Mirrors :
      (p : Pending) (c : Catalog) → Mirrors c → Mirrors (commit_binding env p c)
  unfolding commit_binding
  commit_binding-Mirrors p c agrees =
      let bound = p.pay_to ∷ [] in
      write_first-Mirrors p (record c { ownership = put p.key bound c.ownership })
        (λ k entry other h.
          ground (arith, other, agrees k entry h, find-put p.key k bound c.ownership))
        (ground (arith, find-put p.key p.key bound c.ownership, same_text_refl p.key))

  begin_binding-Mirrors :
      (p : Pending) (c : Catalog) → Mirrors c → Mirrors (begin_binding env p c).0
  unfolding begin_binding
  begin_binding-Mirrors p c agrees =
      let P = λ (out : Catalog × Begun). Mirrors out.0 in
      if_cases P (frozen_on_ownership c.frozen) (λ h. agrees)
        (λ h.
          if_cases P (is_some (find p.key c.ownership))
            (λ i. write_first-Mirrors p c (MirrorsBut-of_Agrees p.key c agrees) i)
            (λ i.
              if_cases P (leb max_tombstones (length c.ownership)) (λ j. agrees)
                (λ j.
                  if_cases P c.has_store (λ k. agrees) (λ k. commit_binding-Mirrors p c agrees))))

  module _ (now : ℕ) (discovered : DiscoveredResource) (r : PaymentRequirements) where
    store_resource-Mirrors :
        (key pay_to : Text) (existing : Option StoredEntry) (resource : Option DiscoveryResource)
        (c : Catalog)
        → find key c.entries ≡ existing
        → Mirrors c
        → Mirrors (store_resource env key pay_to existing resource c).0
    unfolding store_resource write_update
    store_resource-Mirrors key pay_to existing none c h agrees = agrees
    store_resource-Mirrors key pay_to none (some resource) c h agrees =
        begin_binding-Mirrors (record { key = key; pay_to = pay_to; resource = resource }) c agrees
    store_resource-Mirrors key pay_to (some e) (some resource) c h agrees =
        write_entry-Mirrors env key resource e.stats e.restored e.bound_pay_to e.verified_owner c
          (MirrorsBut-of_Agrees key c agrees) (agrees key e h)

    upsert_with_pay_to-Mirrors :
        (key pay_to : Text) (c : Catalog)
        → Mirrors c
        → Mirrors (upsert_with_pay_to env now discovered r key pay_to c).0
    unfolding upsert_with_pay_to
    upsert_with_pay_to-Mirrors key pay_to c agrees =
        let existing = find key c.entries in
        let resource =
          build_resource env now discovered
            (add_accept (record r { pay_to = some pay_to }) (accepts_of existing)) in
        go (ownership_guard pay_to existing (find key c.ownership))
          (store_resource env key pay_to existing resource c)
          (store_resource-Mirrors key pay_to existing resource c refl agrees)
      where
        go :
            (reason : Option CatalogOutcomeReason) (out : Catalog × Begun)
            → Mirrors out.0
            → Mirrors (refuse_or reason c out).0
        go none out kept = kept
        go (some why) out kept = agrees

    upsert_at-Mirrors :
        (key : Option Text) (c : Catalog)
        → Mirrors c
        → Mirrors (upsert_at env now discovered r key c).0
    unfolding upsert_at
    upsert_at-Mirrors none c agrees = agrees
    upsert_at-Mirrors (some key) c agrees =
        if_cases (λ (out : Catalog × Begun). Mirrors out.0) (is_routable env discovered r)
          (λ h. go (canonical_pay_to r.pay_to)) (λ h. agrees)
      where
        go : (pay_to : Option Text) → Mirrors (upsert_routable env now discovered r key pay_to c).0
        go none = agrees
        go (some pay_to) = upsert_with_pay_to-Mirrors key pay_to c agrees

    pub begin_upsert-Mirrors :
        (c : Catalog) → Mirrors c → Mirrors (begin_upsert env now discovered r c).0
    unfolding begin_upsert
    begin_upsert-Mirrors c agrees =
        upsert_at-Mirrors (key_of env discovered.resource_url (tool_name_of discovered)) c agrees

    upsert_from_payment-Mirrors :
        (written : Bool) (c : Catalog)
        → Mirrors c
        → Mirrors (upsert_from_payment env now discovered r written c).0
    unfolding upsert_from_payment finish_upsert
    upsert_from_payment-Mirrors written c agrees =
        go written (begin_upsert env now discovered r c) (begin_upsert-Mirrors c agrees)
      where
        go : (w : Bool) (out : Catalog × Begun) → Mirrors out.0 → Mirrors (resume env w out).0
        go w (d, rejected reason) kept = kept
        go w (d, cataloged first) kept = kept
        go true (d, binding p) kept = commit_binding-Mirrors p d kept
        go false (d, binding p) kept = kept

  pub settles-Mirrors :
      (now : ℕ) (url : Text) (payer : Option Text) (pay_to : Text) (c : Catalog)
      → Mirrors c
      → Mirrors (record_settlement env now url payer pay_to c).0
  unfolding record_settlement record_found entry_at
  settles-Mirrors now url payer pay_to c agrees = go (key_of env url none)
    where
      counted :
          (key : Text) (found : Option StoredEntry)
          → find key c.entries ≡ found
          → Mirrors (record_found now payer pay_to (some key) found c).0
      counted key none h = agrees
      counted key (some entry) h =
          if_cases (λ (out : Catalog × Bool). Mirrors out.0) (is_bound_owner entry pay_to)
            (λ i.
              set_entry-Mirrors key
                (record entry { stats = count_settlement now payer entry.stats }) c
                (MirrorsBut-of_Agrees key c agrees) (agrees key entry h))
            (λ i. agrees)

      go : (key : Option Text) → Mirrors (record_found now payer pay_to key (entry_at c key) c).0
      go none = agrees
      go (some key) = counted key (find key c.entries) refl

  pub displacement-Mirrors :
      (now : ℕ) (claim : Claim) (discovered : DiscoveredResource) (r : PaymentRequirements)
      (written : Bool) (c : Catalog)
      → Mirrors c
      → Mirrors (end_displacement env now claim discovered r written c).0
  unfolding end_displacement set_owner
  displacement-Mirrors now claim discovered r false c agrees = agrees
  displacement-Mirrors now claim discovered r true c agrees =
      let owned = set_owner claim.key claim.claimant c in
      let emptied = record owned { entries = drop_key claim.key owned.entries } in
      set_verified_owner-Mirrors env claim.key true
        (upsert_from_payment env now discovered r true emptied).0
        (upsert_from_payment-Mirrors now discovered r true emptied (λ k entry h. ground (
          arith,
          h,
          agrees k entry,
          find-put claim.key k (claim.claimant ∷ []) c.ownership,
          find-drop_key claim.key k c.entries,
        )))

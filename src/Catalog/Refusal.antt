-- ===== src/Catalog/Refusal.antt =====
-- src/catalog.ts: what a refusal leaves as it was.
use vellar_facilitator.Base.{
  ℕ, ◌≡◌, refl, false, Option, none, some, List, arith, Bool-cases, inl, inr,
}
use vellar_facilitator.Base.Table.{Text, member, find}
use vellar_facilitator.Catalog.Key.{canonical_pay_to}
use vellar_facilitator.Catalog.State.{
  Env, PaymentRequirements, DiscoveredResource, StoredEntry, Catalog, key_of, entry_at,
  tool_name_of,
}
use vellar_facilitator.Catalog.Settlement.{record_settlement, record_found, is_bound_owner}
use vellar_facilitator.Catalog.Upsert.{
  CatalogOutcomeReason, rejected, unbound_payto, ownership_tombstone_mismatch,
  unroutable_resource_url, ownership_guard, upsert_with_pay_to, upsert_at, is_routable,
  begin_upsert,
}

-- A payTo that neither the entry's binding nor the tombstone of an absent entry names.
pub data IsForeign (c : Catalog) (key pay_to : Text) : Type 0 where
  unbound :
      (entry : StoredEntry)
      → find key c.entries ≡ some entry
      → member pay_to entry.bound_pay_to ≡ false
      → IsForeign c key pay_to
  buried :
      (tomb : List Text)
      → find key c.entries ≡ none
      → find key c.ownership ≡ some tomb
      → member pay_to tomb ≡ false
      → IsForeign c key pay_to

guard-refuses :
    (c : Catalog) (key pay_to : Text)
    → IsForeign c key pay_to
    → (reason : CatalogOutcomeReason) × (ownership_guard pay_to
          (find key c.entries)
          (find key c.ownership)
        ≡ some reason)
unfolding ownership_guard
guard-refuses c key pay_to (unbound entry known other) =
    (unbound_payto, rw known (ground (arith, other)))
guard-refuses c key pay_to (buried tomb absent owned other) =
    (ownership_tombstone_mismatch, rw (absent, owned) (ground (arith, other)))

-- A settlement whose payTo, as the catalog reads it, is foreign to the key of the discovered resource
-- is refused with a reason, and the catalog stays as it is in every field.
pub foreign_upsert_refused :
    (env : Env) (now : ℕ) (discovered : DiscoveredResource) (r : PaymentRequirements) (c : Catalog)
    (key pay_to : Text)
    → key_of env discovered.resource_url (tool_name_of discovered) ≡ some key
    → canonical_pay_to r.pay_to ≡ some pay_to
    → IsForeign c key pay_to
    → (reason : CatalogOutcomeReason) × (begin_upsert env now discovered r c ≡ (c, rejected reason))
unfolding begin_upsert upsert_at upsert_with_pay_to
foreign_upsert_refused env now discovered r c key pay_to k p foreign =
    let (reason, guarded) = guard-refuses c key pay_to foreign in
    elim (Bool-cases (is_routable env discovered r)) [
      | inl routable ↦ (reason, rw (k, routable, p, guarded) refl)
      | inr not_routable ↦ (unroutable_resource_url, rw (k, not_routable) refl)
    ]

-- recordSettlement counts a settlement of the key's bound owner only: for another payTo, and for an
-- empty one, the catalog stays as it is.
pub foreign_settlement_refused :
    (env : Env) (now : ℕ) (url : Text) (payer : Option Text) (pay_to : Text) (c : Catalog)
    → ((entry : StoredEntry)
        → entry_at c (key_of env url none) ≡ some entry
        → member pay_to entry.bound_pay_to ≡ false)
    → record_settlement env now url payer pay_to c ≡ (c, false)
unfolding record_settlement record_found is_bound_owner
foreign_settlement_refused env now url payer pay_to c foreign =
    go (key_of env url none) (entry_at c (key_of env url none)) foreign
  where
    go :
        (key : Option Text) (found : Option StoredEntry)
        → ((entry : StoredEntry) → found ≡ some entry → member pay_to entry.bound_pay_to ≡ false)
        → record_found now payer pay_to key found c ≡ (c, false)
    go none found f = refl
    go (some key) none f = refl
    go (some key) (some entry) f = ground (arith, f entry refl)

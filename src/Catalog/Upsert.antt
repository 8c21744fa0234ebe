-- ===== src/Catalog/Upsert.antt =====
-- src/catalog.ts: upsertFromPayment, with bindOwnership and evictToCap. The method is split at the
-- store write that it awaits: begin_upsert runs up to it, and finish_upsert from its outcome on.
pub mod Accepts
pub mod Write
use vellar_facilitator.Base.{
  ℕ, zero, suc, ◌+◌, ◌-◌, Bool, true, false, not, ◌&&◌, ◌||◌, Option, none, some, List, [], ◌∷◌,
  ◌++◌, ltb, leb, ◌==◌, length, if◌then◌else◌,
}
use vellar_facilitator.Base.Text.{codes, same_text}
use vellar_facilitator.Base.Table.{Text, member, adjoin, find, put, drop_key, is_some}
use vellar_facilitator.Ownership.Routable.{assert_routable_resource_url}
use vellar_facilitator.Catalog.Key.{canonical_pay_to}
use vellar_facilitator.Catalog.Sanitize.{sanitize_stored_resource, sanitize_type}
use vellar_facilitator.Catalog.State.{
  Env, PaymentRequirements, Accept, DiscoveredResource, DiscoveryResource, SettlementStats,
  StoredEntry, FreezeReason, tombstone_cap, Catalog, frozen_on_ownership,
  is_structurally_unverifiable, tool_name_of, key_of, entry_at, set_entry, max_accepts, max_entries,
  max_tombstones,
}
unfoldable pub use Accepts.*
unfoldable pub use Write.*

pub data CatalogOutcomeReason : Type 0 where
  invalid_tool_name unroutable_resource_url invalid_payto : CatalogOutcomeReason
  ownership_tombstone_mismatch unbound_payto schema_validation_failed : CatalogOutcomeReason
  binding_refused : CatalogOutcomeReason

-- `existing`, of an entry that is known or not yet known.
abbrev pub accepts_of : Option StoredEntry → List Accept
accepts_of none = []
accepts_of (some entry) = entry.resource.accepts

-- Whether the payTo may write: against the tombstone of an absent entry, or the entry's binding.
unfoldable pub ownership_guard :
    Text → Option StoredEntry → Option (List Text) → Option CatalogOutcomeReason
ownership_guard pay_to none none = none
ownership_guard pay_to none (some tomb) =
    if member pay_to tomb then none else some ownership_tombstone_mismatch
ownership_guard pay_to (some entry) tomb =
    if member pay_to entry.bound_pay_to then none else some unbound_payto

-- How far the method got: refused, through (and whether it was the first catalog), or at the store's
-- `bindAndUpsertEntry`.
pub data Begun : Type 0 where
  rejected : CatalogOutcomeReason → Begun
  cataloged : Bool → Begun
  binding : Pending → Begun

-- What follows the write of the binding, which succeeded.
unfoldable pub commit_binding : Env → Pending → Catalog → Catalog
commit_binding env p c =
    write_first env p (record c { ownership = put p.key (p.pay_to ∷ []) c.ownership })

-- bindOwnership, up to the write.
unfoldable pub begin_binding : Env → Pending → Catalog → Catalog × Begun
begin_binding env p c =
    if frozen_on_ownership c.frozen
    then (c, rejected binding_refused)
    else if is_some (find p.key c.ownership)
    then (write_first env p c, cataloged true)
    else if leb max_tombstones (length c.ownership)
    then (record c { frozen = some tombstone_cap }, rejected binding_refused)
    else if c.has_store
    then (c, binding p)
    else (commit_binding env p c, cataloged true)

-- An entry that is known is updated, one that is not is bound first.
unfoldable pub store_resource :
    Env → Text → Text → Option StoredEntry → Option DiscoveryResource → Catalog → Catalog × Begun
store_resource env key pay_to existing none c = (c, rejected schema_validation_failed)
store_resource env key pay_to none (some resource) c =
    begin_binding env (record { key = key; pay_to = pay_to; resource = resource }) c
store_resource env key pay_to (some entry) (some resource) c =
    (write_update env key resource entry c, cataloged false)

-- An early return, if there is a reason for one.
abbrev pub refuse_or : Option CatalogOutcomeReason → Catalog → Catalog × Begun → Catalog × Begun
refuse_or none c out = out
refuse_or (some reason) c out = (c, rejected reason)

-- With a usable payTo.
unfoldable pub upsert_with_pay_to :
    Env → ℕ → DiscoveredResource → PaymentRequirements → Text → Text → Catalog → Catalog × Begun
upsert_with_pay_to env now discovered r key pay_to c =
    let existing = find key c.entries in
    refuse_or (ownership_guard pay_to existing (find key c.ownership)) c (
      store_resource env key pay_to existing
        (build_resource env now discovered
          (add_accept (record r { pay_to = some pay_to }) (accepts_of existing)))
        c)

abbrev text_of : Option Text → Text
text_of none = []
text_of (some t) = t

abbrev pub upsert_routable :
    Env
    → ℕ
    → DiscoveredResource
    → PaymentRequirements
    → Text
    → Option Text
    → Catalog
    → Catalog × Begun
upsert_routable env now discovered r key none c = (c, rejected invalid_payto)
upsert_routable env now discovered r key (some pay_to) c =
    upsert_with_pay_to env now discovered r key pay_to c

unfoldable pub is_routable : Env → DiscoveredResource → PaymentRequirements → Bool
is_routable env discovered r = not (
    is_some (
      assert_routable_resource_url env.platform.parse_url env.is_ip discovered.resource_url
        (text_of r.network)))

unfoldable pub upsert_at :
    Env → ℕ → DiscoveredResource → PaymentRequirements → Option Text → Catalog → Catalog × Begun
upsert_at env now discovered r none c = (c, rejected invalid_tool_name)
upsert_at env now discovered r (some key) c =
    if is_routable env discovered r
    then upsert_routable env now discovered r key (canonical_pay_to r.pay_to) c
    else (c, rejected unroutable_resource_url)

unfoldable pub begin_upsert :
    Env → ℕ → DiscoveredResource → PaymentRequirements → Catalog → Catalog × Begun
begin_upsert env now discovered r c =
    upsert_at env now discovered r (key_of env discovered.resource_url (tool_name_of discovered)) c

-- The rest of the method, by whether the write of the binding succeeded.
unfoldable pub finish_upsert : Env → Pending → Bool → Catalog → Catalog × Begun
finish_upsert env p true c = (commit_binding env p c, cataloged true)
finish_upsert env p false c = (c, rejected binding_refused)

abbrev pub resume : Env → Bool → Catalog × Begun → Catalog × Begun
resume env written (c, rejected reason) = (c, rejected reason)
resume env written (c, cataloged first) = (c, cataloged first)
resume env written (c, binding p) = finish_upsert env p written c

-- The whole method, with nothing in between.
unfoldable pub upsert_from_payment :
    Env → ℕ → DiscoveredResource → PaymentRequirements → Bool → Catalog → Catalog × Begun
upsert_from_payment env now discovered r written c =
    resume env written (begin_upsert env now discovered r c)

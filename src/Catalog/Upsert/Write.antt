-- ===== src/Catalog/Upsert/Write.antt =====
-- src/catalog.ts: the write of an entry, with evictToCap.
use vellar_facilitator.Base.{
  ℕ, zero, suc, ◌-◌, Bool, false, Option, none, some, List, [], ◌∷◌, leb, length, if◌then◌else◌,
}
use vellar_facilitator.Base.Table.{Text, adjoin, find, drop_key}
use vellar_facilitator.Catalog.State.{
  Env, DiscoveryResource, SettlementStats, StoredEntry, Catalog, is_structurally_unverifiable,
  set_entry, max_entries,
}

-- A first catalog's entry, whose binding is to be written.
pub record Pending : Type 0 where
  pub key : Text
  pub pay_to : Text
  pub resource : DiscoveryResource

-- evictToCap: the entries by age, and the oldest of them deleted.
unfoldable pub insert_by_age :
    Text × StoredEntry → List (Text × StoredEntry) → List (Text × StoredEntry)
insert_by_age e [] = e ∷ []
insert_by_age e (f ∷ es) =
    let rest = insert_by_age e es in
    if leb e.1.resource.last_updated f.1.resource.last_updated then e ∷ f ∷ es else f ∷ rest

unfoldable pub by_age : List (Text × StoredEntry) → List (Text × StoredEntry)
by_age [] = []
by_age (e ∷ es) = insert_by_age e (by_age es)

unfoldable pub drop_oldest :
    ℕ → List (Text × StoredEntry) → List (Text × StoredEntry) → List (Text × StoredEntry)
drop_oldest zero oldest entries = entries
drop_oldest (suc n) [] entries = entries
drop_oldest (suc n) (e ∷ oldest) entries = drop_oldest n oldest (drop_key e.0 entries)

unfoldable pub evict_to : ℕ → List (Text × StoredEntry) → List (Text × StoredEntry)
evict_to cap entries = drop_oldest (length entries - cap) (by_age entries) entries

unfoldable pub evict_to_cap : Catalog → Catalog
evict_to_cap c = record c { entries = evict_to max_entries c.entries }

-- The once-per-URL warning.
unfoldable pub warn_unverifiable : Env → Text → Catalog → Catalog
warn_unverifiable env key c =
    if is_structurally_unverifiable env key
    then record c { warned_unverifiable = adjoin key c.warned_unverifiable }
    else c

-- The map's new entry, which is a new object.
unfoldable pub write_entry :
    Env → Text → DiscoveryResource → SettlementStats → Bool → List Text → Bool → Catalog → Catalog
write_entry env key resource stats restored bound_pay_to verified_owner c = evict_to_cap (
    warn_unverifiable env key (
      set_entry key
        (record {
          object = c.next_object;
          resource = resource;
          stats = stats;
          restored = restored;
          bound_pay_to = bound_pay_to;
          verified_owner = verified_owner;
        })
        (record c { next_object = suc c.next_object })))

abbrev pub no_stats : SettlementStats
no_stats = record { settlements = 0; observed = 0; payers = []; last_settled = none }

-- `this.ownership.get(key) ?? [requirements.payTo]`.
abbrev pub binding_or : Text → Option (List Text) → List Text
binding_or pay_to none = pay_to ∷ []
binding_or pay_to (some bound) = bound

unfoldable pub write_first : Env → Pending → Catalog → Catalog
write_first env p c =
    write_entry env p.key p.resource no_stats false (binding_or p.pay_to (find p.key c.ownership))
      false c

unfoldable pub write_update : Env → Text → DiscoveryResource → StoredEntry → Catalog → Catalog
write_update env key resource entry c =
    write_entry env key resource entry.stats entry.restored entry.bound_pay_to entry.verified_owner
      c

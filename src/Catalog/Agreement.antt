-- ===== src/Catalog/Agreement.antt =====
-- src/catalog.ts: the two copies of a binding, the entry's and the ownership table's.
pub mod Writes
pub mod Histories
use vellar_facilitator.Base.{
  ℕ, zero, suc, ◌-◌, ◌≡◌, refl, Bool, true, false, not, ◌&&◌, ◌||◌, Option, none, some, List, [],
  ◌∷◌, arith, if_cases, if◌then◌else◌, length, Bool-cases, inl, inr, sym, ap, ◌∙◌, leb,
}
use vellar_facilitator.Base.Table.{
  Text, member, find, put, drop_key, find-put, find-drop_key, is_some,
}
use vellar_facilitator.Base.Text.{same_text, same_text_iff}
use vellar_facilitator.Catalog.State.{
  Env, DiscoveryResource, SettlementStats, StoredEntry, Catalog, set_entry, mark_verified,
  set_verified_owner, key_of, entry_at, max_entries, is_structurally_unverifiable,
}
use vellar_facilitator.Catalog.Upsert.{
  drop_oldest, by_age, evict_to, evict_to_cap, warn_unverifiable, write_entry,
}

-- An entry's binding is its key's ownership record. `MirrorsBut key` says it of the other keys.
abbrev pub Mirrors : Catalog → Type 0
Mirrors c =
    (k : Text) (entry : StoredEntry)
    → find k c.entries ≡ some entry
    → find k c.ownership ≡ some entry.bound_pay_to

abbrev pub MirrorsBut : Text → Catalog → Type 0
MirrorsBut key c =
    (k : Text) (entry : StoredEntry)
    → same_text key k ≡ false
    → find k c.entries ≡ some entry
    → find k c.ownership ≡ some entry.bound_pay_to

pub find-drop_oldest :
    (n : ℕ) (oldest entries : List (Text × StoredEntry)) (k : Text) (entry : StoredEntry)
    → find k (drop_oldest n oldest entries) ≡ some entry
    → find k entries ≡ some entry
unfolding drop_oldest
find-drop_oldest zero oldest entries k entry h = h
find-drop_oldest (suc n) [] entries k entry h = h
find-drop_oldest (suc n) (e ∷ oldest) entries k entry h =
    let kept = find-drop_oldest n oldest (drop_key e.0 entries) k entry h in
    ground (arith, kept, find-drop_key e.0 k entries)

-- A change of one entry that keeps its binding.
pub set_entry-Mirrors :
    (key : Text) (entry : StoredEntry) (c : Catalog)
    → MirrorsBut key c
    → find key c.ownership ≡ some entry.bound_pay_to
    → Mirrors (set_entry key entry c)
unfolding set_entry
set_entry-Mirrors key entry c others own k e h = elim (Bool-cases (same_text key k)) [
  | inr other ↦ others k e other (ground (arith, h, other, find-put key k entry c.entries))
  | inl same ↦
      let key_is : key ≡ k = (same_text_iff key k).0 same in
      let entry_is : entry ≡ e = ground (arith, h, same, find-put key k entry c.entries) in
      ground (arith, own, key_is, entry_is)
]

warn_unverifiable-Mirrors :
    (env : Env) (key : Text) (c : Catalog) → Mirrors c → Mirrors (warn_unverifiable env key c)
unfolding warn_unverifiable
warn_unverifiable-Mirrors env key c agrees =
    if_cases Mirrors (is_structurally_unverifiable env key) (λ h. agrees) (λ h. agrees)

pub write_entry-Mirrors :
    (env : Env) (key : Text) (resource : DiscoveryResource) (stats : SettlementStats)
    (restored : Bool) (bound : List Text) (verified : Bool) (c : Catalog)
    → MirrorsBut key c
    → find key c.ownership ≡ some bound
    → Mirrors (write_entry env key resource stats restored bound verified c)
unfolding write_entry evict_to_cap evict_to
write_entry-Mirrors env key resource stats restored bound verified c others own k e h =
    let numbered = record c { next_object = suc c.next_object } in
    let entry : StoredEntry = record {
      object = c.next_object;
      resource = resource;
      stats = stats;
      restored = restored;
      bound_pay_to = bound;
      verified_owner = verified;
    } in
    let warned = warn_unverifiable env key (set_entry key entry numbered) in
    warn_unverifiable-Mirrors env key (set_entry key entry numbered)
      (set_entry-Mirrors key entry numbered others own) k e
      (find-drop_oldest (length warned.entries - max_entries) (by_age warned.entries) warned.entries
        k e h)

mark_verified-Mirrors :
    (verified : Bool) (key : Option Text) (c : Catalog)
    → Mirrors c
    → Mirrors (mark_verified verified key (entry_at c key) c)
unfolding mark_verified entry_at
mark_verified-Mirrors verified none c agrees = agrees
mark_verified-Mirrors verified (some key) c agrees = go (find key c.entries) refl
  where
    go :
        (found : Option StoredEntry)
        → find key c.entries ≡ found
        → Mirrors (mark_verified verified (some key) found c)
    go none h = agrees
    go (some entry) h =
        set_entry-Mirrors key (record entry { verified_owner = verified }) c
          (λ k e other i. agrees k e i) (agrees key entry h)

pub set_verified_owner-Mirrors :
    (env : Env) (url : Text) (verified : Bool) (c : Catalog)
    → Mirrors c
    → Mirrors (set_verified_owner env url verified c)
unfolding set_verified_owner
set_verified_owner-Mirrors env url verified c agrees =
    mark_verified-Mirrors verified (key_of env url none) c agrees

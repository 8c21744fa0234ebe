-- ===== src/Catalog/Untouched.antt =====
-- src/catalog.ts: which operations leave the ownership table and the latch as they are.
use vellar_facilitator.Base.{suc, ◌≡◌, refl, Bool, true, Option, none, some, List, arith, ap, ◌∙◌}
use vellar_facilitator.Base.Table.{Text, member, find, put, is_some, find-put}
use vellar_facilitator.Catalog.State.{
  Env, DiscoveryResource, SettlementStats, StoredEntry, Catalog, set_entry, entry_at, key_of,
  mark_verified, set_verified_owner,
}
use vellar_facilitator.Catalog.Upsert.{warn_unverifiable, evict_to_cap, write_entry}

-- Nothing of the two is forgotten from one state to the other.
pub record Remembers (c d : Catalog) : Type 0 where
  pub owned :
      (key : Text) → is_some (find key c.ownership) ≡ true → is_some (find key d.ownership) ≡ true
  pub latched : (key : Text) → member key c.ever_verified ≡ true → member key d.ever_verified ≡ true

pub Remembers-refl : (c : Catalog) → Remembers c c
Remembers-refl c = record { owned = λ key h. h; latched = λ key h. h }

pub Remembers-trans : {c d e : Catalog} → Remembers c d → Remembers d e → Remembers c e
Remembers-trans p q = record {
  owned = λ key h. q.owned key (p.owned key h);
  latched = λ key h. q.latched key (p.latched key h);
}

-- Neither is touched.
pub record Untouched (c d : Catalog) : Type 0 where
  pub same_ownership : d.ownership ≡ c.ownership
  pub same_latch : d.ever_verified ≡ c.ever_verified

pub Untouched-refl : (c : Catalog) → Untouched c c
Untouched-refl c = record { same_ownership = refl; same_latch = refl }

pub Remembers-of_Untouched : {c d : Catalog} → Untouched c d → Remembers c d
Remembers-of_Untouched {c} {d} u = record {
  owned = λ key h. ap (λ o. is_some (find key o)) u.same_ownership ∙ h;
  latched = λ key h. ap (λ l. member key l) u.same_latch ∙ h;
}

pub put_owner-Remembers :
    (key : Text) (bound : List Text) (c : Catalog)
    → Remembers c (record c { ownership = put key bound c.ownership })
put_owner-Remembers key bound c = record {
  owned = λ k h. ground (arith, h, find-put key k bound c.ownership);
  latched = λ k h. h;
}

pub mark_verified-Untouched :
    (verified : Bool) (key : Option Text) (found : Option StoredEntry) (c : Catalog)
    → Untouched c (mark_verified verified key found c)
unfolding mark_verified set_entry
mark_verified-Untouched verified none found c = Untouched-refl c
mark_verified-Untouched verified (some key) none c = Untouched-refl c
mark_verified-Untouched verified (some key) (some entry) c = record {
  same_ownership = refl;
  same_latch = refl;
}

pub set_verified_owner-Untouched :
    (env : Env) (url : Text) (verified : Bool) (c : Catalog)
    → Untouched c (set_verified_owner env url verified c)
unfolding set_verified_owner
set_verified_owner-Untouched env url verified c =
    mark_verified-Untouched verified (key_of env url none) (entry_at c (key_of env url none)) c

warn_unverifiable-Untouched :
    (env : Env) (key : Text) (c : Catalog) → Untouched c (warn_unverifiable env key c)
unfolding warn_unverifiable
warn_unverifiable-Untouched env key c = record {
  same_ownership = ground arith;
  same_latch = ground arith;
}

pub write_entry-Untouched :
    (env : Env) (key : Text) (resource : DiscoveryResource) (stats : SettlementStats)
    (restored : Bool) (bound : List Text) (verified : Bool) (c : Catalog)
    → Untouched c (write_entry env key resource stats restored bound verified c)
unfolding write_entry evict_to_cap set_entry
write_entry-Untouched env key resource stats restored bound verified c =
    let warned = warn_unverifiable-Untouched env key (
      set_entry key
        (record {
          object = c.next_object;
          resource = resource;
          stats = stats;
          restored = restored;
          bound_pay_to = bound;
          verified_owner = verified;
        })
        (record c { next_object = suc c.next_object })) in
    record { same_ownership = warned.same_ownership; same_latch = warned.same_latch }

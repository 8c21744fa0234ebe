-- ===== src/Catalog/Capacity.antt =====
-- src/catalog.ts: the cap on the entries. Here, how often a key stands in a map, and what evictToCap
-- leaves.
pub mod Writes
pub mod Histories
pub mod Oldest
mod Tests
use vellar_facilitator.Base.{
  ℕ, zero, suc, ◌+◌, ◌-◌, ◌≤◌, ◌<◌, ◌≡◌, refl, sym, ◌∙◌, ap, Bool, true, false, Option, none, some,
  List, [], ◌∷◌, arith, ltb, leb, ◌==◌, length, if◌then◌else◌,
}
use vellar_facilitator.Base.Text.{same_text, same_text_iff, same_text_refl}
use vellar_facilitator.Base.Table.{Text, find, put, drop_key, alter, is_some}
use vellar_facilitator.Catalog.State.{StoredEntry, Catalog, max_entries}
use vellar_facilitator.Catalog.Upsert.{insert_by_age, by_age, drop_oldest, evict_to, evict_to_cap}

module _ {ℓ} {V : Type ℓ} where
  unfoldable pub times : Text → List (Text × V) → ℕ
  times k [] = 0
  times k ((j, v) ∷ m) = let rest = times k m in if same_text j k then suc rest else rest

  pub times-drop_key :
      (k j : Text) (m : List (Text × V))
      → times k (drop_key j m) ≡ (if same_text j k then 0 else times k m)
  unfolding times
  times-drop_key k j [] = ground arith
  times-drop_key k j ((i, v) ∷ m) =
      ground (arith, times-drop_key k j m, same_text_iff i j, same_text_iff i k, same_text_iff j k)

  pub length-drop_key :
      (j : Text) (m : List (Text × V)) → length (drop_key j m) + times j m ≡ length m
  unfolding times
  length-drop_key j [] = refl
  length-drop_key j ((i, v) ∷ m) = ground (arith, length-drop_key j m)

  pub times-put :
      (k j : Text) (v : V) (m : List (Text × V))
      → times j m ≤ 1
      → times k (put j v m) ≡ (if same_text j k then 1 else times k m)
  unfolding times
  times-put k j v [] h = ground arith
  times-put k j v ((i, w) ∷ m) h =
      ground (arith, times-put k j v m, same_text_iff i j, same_text_iff i k, same_text_iff j k)

  pub length-put :
      (j : Text) (v : V) (m : List (Text × V))
      → length (put j v m) ≡ (if times j m == 0 then suc (length m) else length m)
  unfolding times
  length-put j v [] = ground arith
  length-put j v ((i, w) ∷ m) = ground (arith, length-put j v m)

  pub times-alter : (f : V → V) (k : Text) (m : List (Text × V)) → times k (alter f m) ≡ times k m
  unfolding times
  times-alter f k [] = refl
  times-alter f k ((j, v) ∷ m) = ground (arith, times-alter f k m)

  pub length-alter : (f : V → V) (m : List (Text × V)) → length (alter f m) ≡ length m
  length-alter f [] = refl
  length-alter f ((j, v) ∷ m) = ap suc (length-alter f m)

  pub times-find : (k : Text) (v : V) (m : List (Text × V)) → find k m ≡ some v → 1 ≤ times k m
  unfolding times
  times-find k v [] e = cc
  times-find k v ((j, w) ∷ m) e = ground (arith, times-find k v m)

times-insert_by_age :
    (k : Text) (e : Text × StoredEntry) (es : List (Text × StoredEntry))
    → times k (insert_by_age e es) ≡ times k (e ∷ es)
unfolding times insert_by_age
times-insert_by_age k e [] = refl
times-insert_by_age k e (f ∷ es) = ground (arith, times-insert_by_age k e es)

times-by_age : (k : Text) (es : List (Text × StoredEntry)) → times k (by_age es) ≡ times k es
unfolding times by_age
times-by_age k [] = refl
times-by_age k (e ∷ es) = ground (arith, times-insert_by_age k e (by_age es), times-by_age k es)

length-insert_by_age :
    (e : Text × StoredEntry) (es : List (Text × StoredEntry))
    → length (insert_by_age e es) ≡ suc (length es)
unfolding insert_by_age
length-insert_by_age e [] = refl
length-insert_by_age e (f ∷ es) = ground (arith, length-insert_by_age e es)

length-by_age : (es : List (Text × StoredEntry)) → length (by_age es) ≡ length es
unfolding by_age
length-by_age [] = refl
length-by_age (e ∷ es) = length-insert_by_age e (by_age es) ∙ ap suc (length-by_age es)

drop_oldest_lem :
    (n : ℕ) (oldest es : List (Text × StoredEntry))
    → n ≤ length oldest
    → ((k : Text) → times k oldest ≤ times k es)
    → ((k : Text) → times k es ≤ 1)
    → (length (drop_oldest n oldest es) + n ≡ length es)
      × ((k : Text) → times k (drop_oldest n oldest es) ≤ 1)
unfolding drop_oldest times
drop_oldest_lem zero oldest es h sub once = (omega arith, once)
drop_oldest_lem (suc n) [] es h sub once = absurd (omega (arith, h))
drop_oldest_lem (suc n) (e ∷ oldest) es h sub once =
    let first : times e.0 es ≡ 1 = ground (arith, sub e.0, once e.0, same_text_refl e.0) in
    let rest =
      drop_oldest_lem n oldest (drop_key e.0 es) (omega (arith, h))
        (λ k. ground (arith, sub k, once k, times-drop_key k e.0 es))
        (λ k. ground (arith, once k, times-drop_key k e.0 es)) in
    (omega (arith, rest.0, first, length-drop_key e.0 es), rest.1)

-- Each key stands once, and there are no more entries than the cap allows.
abbrev pub IsCapped : Catalog → Type 0
IsCapped c = ((k : Text) → times k c.entries ≤ 1) × (length c.entries ≤ max_entries)

pub evict_to_cap-IsCapped :
    (c : Catalog) → ((k : Text) → times k c.entries ≤ 1) → IsCapped (evict_to_cap c)
unfolding evict_to_cap evict_to
evict_to_cap-IsCapped c once =
    let excess = length c.entries - max_entries in
    let dropped =
      drop_oldest_lem excess (by_age c.entries) c.entries (omega (arith, length-by_age c.entries))
        (λ k. omega (arith, times-by_age k c.entries)) once in
    (dropped.1, omega (arith, dropped.0))

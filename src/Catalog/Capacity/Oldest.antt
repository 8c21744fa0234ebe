-- ===== src/Catalog/Capacity/Oldest.antt =====
-- src/catalog.ts: which entries evictToCap deletes.
use vellar_facilitator.Base.{
  ℕ, zero, suc, ◌-◌, ◌≤◌, ◌≡◌, refl, ◌∙◌, ap, subst, none, some, List, [], ◌∷◌, arith, length, All,
  if◌then◌else◌, leb, if_cases, leb→le, Bool-cases, inl, inr,
}
use vellar_facilitator.Base.Text.{same_text, same_text_iff, same_text_refl}
use vellar_facilitator.Base.Table.{Text, find, drop_key, find-drop_key}
use vellar_facilitator.Catalog.State.{StoredEntry}
use vellar_facilitator.Catalog.Upsert.{insert_by_age, by_age, drop_oldest, evict_to}
use vellar_facilitator.Catalog.Agreement.{find-drop_oldest}
use vellar_facilitator.Catalog.Capacity.{times, times-by_age}

abbrev age : StoredEntry → ℕ
age entry = entry.resource.last_updated

abbrev IsBefore : ℕ → Text × StoredEntry → Type 0
IsBefore t f = t ≤ age f.1

abbrev IsSorted : List (Text × StoredEntry) → Type 0
IsSorted [] = Unit
IsSorted (e ∷ es) = All (IsBefore (age e.1)) es × IsSorted es

All-weaken :
    (t u : ℕ) (es : List (Text × StoredEntry)) → t ≤ u → All (IsBefore u) es → All (IsBefore t) es
All-weaken t u [] h a = tt
All-weaken t u (e ∷ es) h a = (omega (arith, h, a.0), All-weaken t u es h a.1)

All-insert :
    (t : ℕ) (e : Text × StoredEntry) (es : List (Text × StoredEntry))
    → t ≤ age e.1
    → All (IsBefore t) es
    → All (IsBefore t) (insert_by_age e es)
unfolding insert_by_age
All-insert t e [] h a = (h, tt)
All-insert t e (f ∷ es) h a = ground (arith, h, a, All-insert t e es h)

insert-IsSorted :
    (e : Text × StoredEntry) (es : List (Text × StoredEntry))
    → IsSorted es
    → IsSorted (insert_by_age e es)
unfolding insert_by_age
insert-IsSorted e [] s = (tt, tt)
insert-IsSorted e (f ∷ es) s =
    if_cases IsSorted (leb (age e.1) (age f.1))
      (λ before.
        let le = leb→le (age e.1) (age f.1) before in
        ((le, All-weaken (age e.1) (age f.1) es le s.0), s))
      (λ behind. (All-insert (age f.1) e es (ground (arith, behind)) s.0, insert-IsSorted e es s.1))

by_age-IsSorted : (es : List (Text × StoredEntry)) → IsSorted (by_age es)
unfolding by_age
by_age-IsSorted [] = tt
by_age-IsSorted (e ∷ es) = insert-IsSorted e (by_age es) (by_age-IsSorted es)

find-absent : (k : Text) (es : List (Text × StoredEntry)) → times k es ≡ 0 → find k es ≡ none
unfolding times
find-absent k [] h = refl
find-absent k (e ∷ es) h = ground (arith, h, find-absent k es)

find-insert :
    (k : Text) (e : Text × StoredEntry) (es : List (Text × StoredEntry))
    → times e.0 es ≡ 0
    → find k (insert_by_age e es) ≡ (if same_text e.0 k then some e.1 else find k es)
unfolding insert_by_age times
find-insert k e [] h = refl
find-insert k e (f ∷ es) h =
    ground (
      arith,
      h,
      find-insert k e es,
      same_text_iff f.0 e.0,
      same_text_iff f.0 k,
      same_text_iff e.0 k,
    )

find-by_age :
    (k : Text) (es : List (Text × StoredEntry))
    → ((j : Text) → times j es ≤ 1)
    → find k (by_age es) ≡ find k es
unfolding by_age times
find-by_age k [] once = refl
find-by_age k (e ∷ es) once =
    find-insert k e (by_age es) (ground (arith, once e.0, times-by_age e.0 es, same_text_refl e.0))
    ∙ ap (λ found. if same_text e.0 k then some e.1 else found)
        (find-by_age k es (λ j. ground (arith, once j)))

All-find :
    (t : ℕ) (k : Text) (v : StoredEntry) (es : List (Text × StoredEntry))
    → All (IsBefore t) es
    → find k es ≡ some v
    → t ≤ age v
All-find t k v [] a e = cc
All-find t k v (f ∷ es) a e = ground (arith, a, e, All-find t k v es)

drop_oldest-old :
    (n : ℕ) (oldest es : List (Text × StoredEntry)) (k j : Text) (a b : StoredEntry)
    → IsSorted oldest
    → ((i : Text) → times i oldest ≤ 1)
    → ((i : Text) → find i oldest ≡ find i es)
    → find k es ≡ some a
    → find k (drop_oldest n oldest es) ≡ none
    → find j (drop_oldest n oldest es) ≡ some b
    → age a ≤ age b
unfolding drop_oldest times
drop_oldest-old zero oldest es k j a b s once same held gone kept = cc
drop_oldest-old (suc n) [] es k j a b s once same held gone kept = cc
drop_oldest-old (suc n) (e ∷ oldest) es k j a b s once same held gone kept =
    elim (Bool-cases (same_text e.0 k)) [
      | inl mine ↦
          let b_held = find-drop_oldest n oldest (drop_key e.0 es) j b kept in
          let b_old : find j oldest ≡ some b =
            ground (arith, b_held, same j, find-drop_key e.0 j es) in
          let first : e.1 ≡ a = ground (arith, mine, held, same k) in
          subst (λ v. age v ≤ age b) first (All-find (age e.1) j b oldest s.0 b_old)
      | inr other ↦
          drop_oldest-old n oldest (drop_key e.0 es) k j a b s.1 (λ i. ground (arith, once i))
            (λ i. ground (arith, once i, same i, find-absent i oldest, find-drop_key e.0 i es))
            (ground (arith, other, held, find-drop_key e.0 k es)) gone kept
    ]

-- With distinct keys, an entry that is deleted to come down to a cap, as evictToCap does for its cap, is
-- not more recent than any that is kept.
pub evict_to-oldest :
    (cap : ℕ) (es : List (Text × StoredEntry)) (k j : Text) (a b : StoredEntry)
    → ((i : Text) → times i es ≤ 1)
    → find k es ≡ some a
    → find k (evict_to cap es) ≡ none
    → find j (evict_to cap es) ≡ some b
    → a.resource.last_updated ≤ b.resource.last_updated
unfolding evict_to
evict_to-oldest cap es k j a b once held gone kept =
    drop_oldest-old (length es - cap) (by_age es) es k j a b (by_age-IsSorted es)
      (λ i. omega (arith, once i, times-by_age i es)) (λ i. find-by_age i es once) held gone kept

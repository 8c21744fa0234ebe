-- ===== src/Trust/Rerank.antt =====
-- src/trust.ts: the order of rerankVerifiedFirst.
use vellar_facilitator.Base.{
  ℕ, ◌≤◌, ◌<◌, ◌≡◌, refl, sym, ◌⊎◌, inl, inr, ◌∙◌, ap, subst, Option, none, some, List, [], ◌∷◌,
  ◌++◌, arith, ◌==◌, filter, All, ==_iff, if◌then◌else◌,
}
use vellar_facilitator.Trust.{Verdict, verified, unverified, unknown}
use vellar_facilitator.Trust.Annotate.{
  Listing, rank, rank_of, verification_of, insert_by_rank, rerank_verified_first,
}
use mathlib.Core.List.{append-nil}

-- The listings of one rank, in their order.
abbrev pub band : ℕ → List Listing → List Listing
band r items = filter (λ i. rank_of i == r) items

-- The three bands one after the other.
abbrev bands : List Listing → List Listing
bands items = band 0 items ++ (band 1 items ++ band 2 items)

-- A listing goes past those that rank before it.
insert-past :
    (r : ℕ) (x : Listing) (items rest : List Listing)
    → r < rank_of x
    → insert_by_rank x (band r items ++ rest) ≡ band r items ++ insert_by_rank x rest
unfolding insert_by_rank
insert-past r x [] rest h = refl
insert-past r x (y ∷ items) rest h =
    ground (arith, insert-past r x items rest h, ==_iff (rank_of y) r)

-- It stops at those that do not.
insert-front :
    (x : Listing) (items : List Listing)
    → All (λ y. rank_of x ≤ rank_of y) items
    → insert_by_rank x items ≡ x ∷ items
unfolding insert_by_rank
insert-front x [] h = refl
insert-front x (y ∷ items) h = ground (arith, h.0)

band-All :
    (r k : ℕ) (items rest : List Listing)
    → k ≤ r
    → All (λ y. k ≤ rank_of y) rest
    → All (λ y. k ≤ rank_of y) (band r items ++ rest)
band-All r k [] rest h a = a
band-All r k (y ∷ items) rest h a =
    ground (arith, band-All r k items rest h a, ==_iff (rank_of y) r)

rank-cases : (v : Option Verdict) → (rank v ≡ 0) ⊎ (rank v ≡ 1) ⊎ (rank v ≡ 2)
rank-cases none = inr (inr refl)
rank-cases (some verified) = inl refl
rank-cases (some unverified) = inr (inr refl)
rank-cases (some unknown) = inr (inl refl)

-- The bands of `x ∷ items`, where `x` has rank `r`.
abbrev bands_with : ℕ → Listing → List Listing → List Listing
bands_with r x items =
    (if r == 0 then x ∷ band 0 items else band 0 items)
    ++ ((if r == 1 then x ∷ band 1 items else band 1 items)
        ++ (if r == 2 then x ∷ band 2 items else band 2 items))

insert-bands :
    (x : Listing) (items : List Listing) → insert_by_rank x (bands items) ≡ bands (x ∷ items)
insert-bands x items = inserted (rank-cases (verification_of x.trust))
  where
    late : (k : ℕ) → k ≤ 2 → All (λ y. k ≤ rank_of y) (band 2 items)
    late k h =
        subst (λ l. All (λ y. k ≤ rank_of y) l) (append-nil (band 2 items))
          (band-All 2 k items [] h tt)

    front :
        (k : ℕ) (rest : List Listing)
        → rank_of x ≡ k
        → All (λ y. k ≤ rank_of y) rest
        → insert_by_rank x rest ≡ x ∷ rest
    front k rest e a = insert-front x rest (subst (λ r. All (λ y. r ≤ rank_of y) rest) (sym e) a)

    inserted :
        (rank_of x ≡ 0) ⊎ (rank_of x ≡ 1) ⊎ (rank_of x ≡ 2)
        → insert_by_rank x (bands items) ≡ bands_with (rank_of x) x items
    inserted (inl e) =
        front 0 (bands items) e (
          band-All 0 0 items (band 1 items ++ band 2 items) (omega arith)
            (band-All 1 0 items (band 2 items) (omega arith) (late 0 (omega arith))))
        ∙ ap (λ r. bands_with r x items) (sym e)
    inserted (inr (inl e)) =
        insert-past 0 x items (band 1 items ++ band 2 items) (omega (arith, e))
        ∙ ap (◌++◌ (band 0 items)) (
            front 1 (band 1 items ++ band 2 items) e
              (band-All 1 1 items (band 2 items) (omega arith) (late 1 (omega arith))))
        ∙ ap (λ r. bands_with r x items) (sym e)
    inserted (inr (inr e)) =
        insert-past 0 x items (band 1 items ++ band 2 items) (omega (arith, e))
        ∙ ap (◌++◌ (band 0 items)) (
            insert-past 1 x items (band 2 items) (omega (arith, e))
            ∙ ap (◌++◌ (band 1 items)) (front 2 (band 2 items) e (late 2 (omega arith))))
        ∙ ap (λ r. bands_with r x items) (sym e)

-- The reranked listings are the verified ones, then the unknown ones, then the others, each band in
-- the order in which it was given.
pub rerank_verified_first-stable :
    (items : List Listing)
    → rerank_verified_first items
      ≡ filter (λ i. rank_of i == 0) items
        ++ (filter (λ i. rank_of i == 1) items ++ filter (λ i. rank_of i == 2) items)
unfolding rerank_verified_first
rerank_verified_first-stable [] = refl
rerank_verified_first-stable (x ∷ items) =
    ap (insert_by_rank x) (rerank_verified_first-stable items) ∙ insert-bands x items

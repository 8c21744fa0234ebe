-- ===== src/Catalog/Browse/Ranking.antt =====
-- src/catalog.ts: the order of the lexical ranking.
use vellar_facilitator.Base.{
  ℕ, ◌≤◌, ◌≡◌, refl, ◌∙◌, Bool, true, false, List, [], ◌∷◌, arith, ltb, length, filter, All,
  if_cases,
}
use vellar_facilitator.Base.Table.{Text}
use vellar_facilitator.Catalog.State.{StoredEntry}
use vellar_facilitator.Catalog.Browse.{
  Wording, ranks_before, insert_ranked, sort_ranked, lexical_ranking, score_resource,
}
use mathlib.Core.List.{map}

-- A result with a higher score, or with the same score and not less recent.
abbrev pub IsAhead : StoredEntry × ℕ → StoredEntry × ℕ → Type 0
IsAhead x y = (y.1 ≤ x.1) × (x.1 ≡ y.1 → y.0.resource.last_updated ≤ x.0.resource.last_updated)

abbrev pub IsRanked : List (StoredEntry × ℕ) → Type 0
IsRanked [] = Unit
IsRanked (x ∷ xs) = All (IsAhead x) xs × IsRanked xs

IsAhead-trans : (x y z : StoredEntry × ℕ) → IsAhead x y → IsAhead y z → IsAhead x z
IsAhead-trans x y z a b = ground (arith, a, b)

All-IsAhead :
    (x y : StoredEntry × ℕ) (xs : List (StoredEntry × ℕ))
    → IsAhead x y
    → All (IsAhead y) xs
    → All (IsAhead x) xs
All-IsAhead x y [] h a = tt
All-IsAhead x y (z ∷ xs) h a = (IsAhead-trans x y z h a.0, All-IsAhead x y xs h a.1)

ranks_before-IsAhead : (x y : StoredEntry × ℕ) → ranks_before x y ≡ true → IsAhead x y
unfolding ranks_before
ranks_before-IsAhead x y h = ground (arith, h)

behind-IsAhead : (x y : StoredEntry × ℕ) → ranks_before x y ≡ false → IsAhead y x
unfolding ranks_before
behind-IsAhead x y h = ground (arith, h)

insert-IsAhead :
    (y x : StoredEntry × ℕ) (xs : List (StoredEntry × ℕ))
    → IsAhead y x
    → All (IsAhead y) xs
    → All (IsAhead y) (insert_ranked x xs)
unfolding insert_ranked
insert-IsAhead y x [] h a = (h, tt)
insert-IsAhead y x (z ∷ xs) h a =
    if_cases (All (IsAhead y)) (ranks_before x z) (λ _. (h, a))
      (λ _. (a.0, insert-IsAhead y x xs h a.1))

insert-IsRanked :
    (x : StoredEntry × ℕ) (xs : List (StoredEntry × ℕ))
    → IsRanked xs
    → IsRanked (insert_ranked x xs)
unfolding insert_ranked
insert-IsRanked x [] r = (tt, tt)
insert-IsRanked x (y ∷ xs) r =
    if_cases IsRanked (ranks_before x y)
      (λ h. let ahead = ranks_before-IsAhead x y h in ((ahead, All-IsAhead x y xs ahead r.0), r))
      (λ h. (insert-IsAhead y x xs (behind-IsAhead x y h) r.0, insert-IsRanked x xs r.1))

sort-IsRanked : (xs : List (StoredEntry × ℕ)) → IsRanked (sort_ranked xs)
unfolding sort_ranked
sort-IsRanked [] = tt
sort-IsRanked (x ∷ xs) = insert-IsRanked x (sort_ranked xs) (sort-IsRanked xs)

module _ (q : StoredEntry × ℕ → Bool) where
  -- How many results pass a test.
  abbrev pub how_many : List (StoredEntry × ℕ) → ℕ
  how_many xs = length (filter q xs)

  insert-how_many :
      (x : StoredEntry × ℕ) (xs : List (StoredEntry × ℕ))
      → how_many (insert_ranked x xs) ≡ how_many (x ∷ xs)
  unfolding insert_ranked
  insert-how_many x [] = refl
  insert-how_many x (y ∷ xs) =
      if_cases (λ l. how_many l ≡ how_many (x ∷ y ∷ xs)) (ranks_before x y) (λ _. refl)
        (λ _. ground (arith, insert-how_many x xs))

  pub sort-how_many : (xs : List (StoredEntry × ℕ)) → how_many (sort_ranked xs) ≡ how_many xs
  unfolding sort_ranked
  sort-how_many [] = refl
  sort-how_many (x ∷ xs) = insert-how_many x (sort_ranked xs) ∙ ground (arith, sort-how_many xs)

-- The lexical ranking of a search has the higher score first, and the more recent entry among equal
-- scores; and it has the candidates of a positive score, none lost and none added: for every test, as
-- many of its results pass as of those.
pub lexical_ranking-IsRanked :
    (w : Wording) (tokens : List Text) (candidates : List StoredEntry)
    → IsRanked (lexical_ranking w tokens candidates)
      × ((q : StoredEntry × ℕ → Bool)
          → length (filter q (lexical_ranking w tokens candidates))
            ≡ length (
                filter q
                  (filter (λ s. ltb 0 s.1) (map (λ e. (e, score_resource w tokens e)) candidates))))
unfolding lexical_ranking
lexical_ranking-IsRanked w tokens candidates =
    let scored = filter (λ s. ltb 0 s.1) (map (λ e. (e, score_resource w tokens e)) candidates) in
    (sort-IsRanked scored, λ q. sort-how_many q scored)

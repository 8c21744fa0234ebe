-- ===== src/Catalog/Browse/Fusion.antt =====
-- src/catalog.ts: what the fusion with the vector ranking keeps of the lexical one, and what it adds.
use vellar_facilitator.Base.{
  ℕ, ◌+◌, ◌≤◌, ◌≡◌, refl, ◌∙◌, Bool, true, not, Option, none, some, List, [], ◌∷◌, ◌++◌, arith,
  length, filter, if_cases, ◌==◌,
}
use vellar_facilitator.Base.Text.{trim}
use vellar_facilitator.Base.Table.{Text}
use vellar_facilitator.Catalog.State.{StoredEntry}
use vellar_facilitator.Catalog.Browse.{
  Wording, sort_ranked, cons_similar, similar, insert_similar, sort_similar, fused_score,
  holds_entry, union, fuse, fuse_known, fuse_with_vector_ranking,
}
use vellar_facilitator.Catalog.Browse.Ranking.{sort-how_many}
use mathlib.Core.List.{map}

module _ (q : StoredEntry → Bool) where
  -- How many entries pass a test.
  abbrev pub entries_passing : List StoredEntry → ℕ
  entries_passing es = length (filter q es)

  abbrev scored_passing : List (StoredEntry × ℕ) → ℕ
  scored_passing xs = length (filter (λ s. q s.0) xs)

  first-passing :
      (xs : List (StoredEntry × ℕ)) → entries_passing (map (λ s. s.0) xs) ≡ scored_passing xs
  first-passing [] = refl
  first-passing (x ∷ xs) = ground (arith, first-passing xs)

  score-passing :
      (f : StoredEntry → ℕ) (es : List StoredEntry)
      → scored_passing (map (λ e. (e, f e)) es) ≡ entries_passing es
  score-passing f [] = refl
  score-passing f (e ∷ es) = ground (arith, score-passing f es)

  insert_similar-passing :
      (x : StoredEntry × ℕ) (xs : List (StoredEntry × ℕ))
      → scored_passing (insert_similar x xs) ≡ scored_passing (x ∷ xs)
  unfolding insert_similar
  insert_similar-passing x [] = refl
  insert_similar-passing x (y ∷ ys) = ground (arith, insert_similar-passing x ys)

  sort_similar-passing :
      (xs : List (StoredEntry × ℕ)) → scored_passing (sort_similar xs) ≡ scored_passing xs
  unfolding sort_similar
  sort_similar-passing [] = refl
  sort_similar-passing (x ∷ xs) =
      insert_similar-passing x (sort_similar xs) ∙ ground (arith, sort_similar-passing xs)

  similar-passing-le :
      (near : StoredEntry → Option ℕ) (es : List StoredEntry)
      → scored_passing (similar near es) ≤ entries_passing es
  unfolding similar
  similar-passing-le near [] = omega arith
  similar-passing-le near (e ∷ es) = by_vector (near e) (similar-passing-le near es)
    where
      by_vector :
          (o : Option ℕ)
          → scored_passing (similar near es) ≤ entries_passing es
          → scored_passing (cons_similar e o (similar near es)) ≤ entries_passing (e ∷ es)
      by_vector none h = ground (arith, h)
      by_vector (some n) h = ground (arith, h)

  filter-passing-le :
      (p : StoredEntry → Bool) (es : List StoredEntry)
      → entries_passing (filter p es) ≤ entries_passing es
  filter-passing-le p [] = omega arith
  filter-passing-le p (e ∷ es) = ground (arith, filter-passing-le p es)

  append-passing :
      (es fs : List StoredEntry)
      → entries_passing (es ++ fs) ≡ entries_passing es + entries_passing fs
  append-passing [] fs = omega arith
  append-passing (e ∷ es) fs = ground (arith, append-passing es fs)

  none_new :
      (lexical vs : List StoredEntry)
      → ((e : StoredEntry) → q e ≡ true → holds_entry e lexical ≡ true)
      → entries_passing (filter (λ e. not (holds_entry e lexical)) vs) ≡ 0
  none_new lexical [] held = refl
  none_new lexical (v ∷ vs) held =
      let rest = none_new lexical vs held in
      if_cases (λ l. entries_passing l ≡ 0) (not (holds_entry v lexical))
        (λ new. ground (arith, new, held v, rest)) (λ old. rest)

  -- The bounds on what passes after a fusion with the entries `vs`.
  pub record IsFused (lexical fused vs : List StoredEntry) : Type 0 where
    pub kept : entries_passing lexical ≤ entries_passing fused
    pub added : entries_passing fused ≤ entries_passing lexical + entries_passing vs
    pub once :
        ((e : StoredEntry) → q e ≡ true → holds_entry e lexical ≡ true)
        → entries_passing fused ≡ entries_passing lexical

  lexical-IsFused : (lexical vs : List StoredEntry) → IsFused lexical lexical vs
  lexical-IsFused lexical vs = record {
    kept = omega arith;
    added = omega arith;
    once = λ held. refl;
  }

  fuse-passing :
      (w : Wording) (lexical : List StoredEntry) (v : StoredEntry) (vs : List StoredEntry)
      → entries_passing (fuse w lexical (v ∷ vs)) ≡ entries_passing (union lexical (v ∷ vs))
  unfolding fuse
  fuse-passing w lexical v vs =
      let all = union lexical (v ∷ vs) in
      let scored = map (λ e. (e, fused_score w lexical (v ∷ vs) e)) all in
      first-passing (sort_ranked scored)
      ∙ sort-how_many (λ s. q s.0) scored
      ∙ score-passing (λ e. fused_score w lexical (v ∷ vs) e) all

  fuse-IsFused :
      (w : Wording) (lexical vs : List StoredEntry) → IsFused lexical (fuse w lexical vs) vs
  unfolding fuse union
  fuse-IsFused w lexical [] = lexical-IsFused lexical []
  fuse-IsFused w lexical (v ∷ vs) =
      let new = filter (λ e. not (holds_entry e lexical)) (v ∷ vs) in
      let counted = fuse-passing w lexical v vs ∙ append-passing lexical new in
      record {
        kept = omega (arith, counted);
        added =
            omega (arith, counted, filter-passing-le (λ e. not (holds_entry e lexical)) (v ∷ vs));
        once = λ held. omega (arith, counted, none_new lexical (v ∷ vs) held);
      }

  fuse_known-IsFused :
      (w : Wording) (lexical candidates : List StoredEntry)
      (known : Option (StoredEntry → Option ℕ))
      → IsFused lexical (fuse_known w lexical candidates known) candidates
  fuse_known-IsFused w lexical candidates none = lexical-IsFused lexical candidates
  fuse_known-IsFused w lexical candidates (some near) =
      let close = similar near candidates in
      let fused = fuse-IsFused w lexical (map (λ s. s.0) (sort_similar close)) in
      record {
        kept = fused.kept;
        added = omega (
          arith,
          fused.added,
          first-passing (sort_similar close),
          sort_similar-passing close,
          similar-passing-le near candidates,
        );
        once = fused.once;
      }

-- Whatever the vectors say, the fused ranking of a search loses no hit of the lexical one and repeats
-- none, and adds nothing but candidates, each no more often than it is one: for every test of entries,
-- at least as many pass as of the lexical hits, at most as many as of those and the candidates
-- together, and exactly as many as of the lexical hits where only these can pass.
pub fuse_with_vector_ranking-IsFused :
    (w : Wording) (lexical candidates : List StoredEntry) (query : Text) (q : StoredEntry → Bool)
    → IsFused q lexical (fuse_with_vector_ranking w lexical candidates query) candidates
unfolding fuse_with_vector_ranking
fuse_with_vector_ranking-IsFused w lexical candidates query q =
    if_cases (λ l. IsFused q lexical l candidates) (length (trim query) == 0)
      (λ empty. lexical-IsFused q lexical candidates)
      (λ given. fuse_known-IsFused q w lexical candidates (w.similarity (trim query)))

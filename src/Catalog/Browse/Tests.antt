-- ===== src/Catalog/Browse/Tests.antt =====
-- The search of src/catalog.ts at concrete inputs.
use vellar_facilitator.Catalog.Browse.Tokens.{split_words}
use vellar_facilitator.Catalog.Sanitize.{take}
use vellar_facilitator.Base.Text.{ends_with}
use vellar_facilitator.Catalog.Browse.Tokens.{has_suffix}
use vellar_facilitator.Base.{◌+◌, ◌-◌, ◌≡◌, refl, false, none, some, [], ◌∷◌, length}
use vellar_facilitator.Base.Text.{codes}
use vellar_facilitator.Catalog.Browse.{Wording, Params, search_results}
use vellar_facilitator.Catalog.Browse.Tokens.{tokenize, stem}
use vellar_facilitator.Catalog.Browse.Pages.{browse, browse_complete}
use vellar_facilitator.Catalog.Tests.{listed, entry}
use vellar_facilitator.Catalog.State.{StoredEntry}
use vellar_facilitator.Base.{ℕ, Bool, true, ltb, filter}
use vellar_facilitator.Base.Text.{trim}
use vellar_facilitator.Catalog.Browse.{
  fuse_with_vector_ranking, similar, sort_similar, insert_similar, fuse, union, holds_entry,
  fused_score, rank_from, sort_ranked, insert_ranked, ranks_before, lexical_ranking, score_resource,
}
use vellar_facilitator.Catalog.Browse.Fusion.{IsFused, fuse_with_vector_ranking-IsFused}
use vellar_facilitator.Catalog.Browse.Ranking.{IsRanked, lexical_ranking-IsRanked}
use mathlib.Core.List.{map}

stem_conversion : stem (codes "conversion") ≡ codes "convert"
unfolding stem has_suffix ends_with take
stem_conversion = refl

stem_address : stem (codes "address") ≡ codes "address"
unfolding stem has_suffix ends_with
stem_address = refl

stem_short : stem (codes "ted") ≡ codes "ted"
unfolding stem has_suffix ends_with
stem_short = refl

tokenize_words : tokenize (codes "a uuid, v4") ≡ codes "uuid" ∷ codes "v4" ∷ []
unfolding tokenize split_words
tokenize_words = refl

abbrev wording : Wording
wording = record {
  to_lower_case = λ t. t;
  has_extension = λ t m. false;
  bazaar_text = λ m. [];
  similarity = λ q. some (λ e. some 1);
  rrf_score = λ a b. 200 - (a + b);
}

abbrev anything : Params
anything = record { type = []; pay_to = []; scheme = []; network = []; extensions = []; asset = [] }

browse_complete_example :
    browse wording anything
      (codes "shop")
      (some 1)
      (codes "k")
      (length (search_results wording anything (codes "shop") listed))
      none
      listed
    ≡ search_results wording anything (codes "shop") listed
browse_complete_example =
    browse_complete wording anything (codes "shop") (some 1) (codes "k") listed

-- A second entry, with no word of the query.
abbrev second : StoredEntry
second = record entry { object = 7 }

abbrev anyone : StoredEntry → Bool
anyone e = true

-- The lexical hit is in both rankings, the other entry in that of the vectors only.
hybrid :
    fuse_with_vector_ranking wording (entry ∷ []) (second ∷ entry ∷ []) (codes "shop")
    ≡ entry ∷ second ∷ []
unfolding fuse_with_vector_ranking similar sort_similar insert_similar fuse union holds_entry
    fused_score rank_from sort_ranked insert_ranked ranks_before trim
hybrid = refl

fuse_with_vector_ranking-IsFused_example :
    IsFused anyone
      (entry ∷ [])
      (fuse_with_vector_ranking wording (entry ∷ []) (second ∷ entry ∷ []) (codes "shop"))
      (second ∷ entry ∷ [])
fuse_with_vector_ranking-IsFused_example =
    fuse_with_vector_ranking-IsFused wording (entry ∷ []) (second ∷ entry ∷ []) (codes "shop")
      anyone

lexical_ranking-IsRanked_example :
    IsRanked (lexical_ranking wording (codes "shop" ∷ []) (entry ∷ second ∷ []))
    × ((q : StoredEntry × ℕ → Bool)
        → length (filter q (lexical_ranking wording (codes "shop" ∷ []) (entry ∷ second ∷ [])))
          ≡ length (
              filter q (
                filter
                  (λ s. ltb 0 s.1)
                  (map
                    (λ e. (e, score_resource wording (codes "shop" ∷ []) e))
                    (entry ∷ second ∷ [])))))
lexical_ranking-IsRanked_example =
    lexical_ranking-IsRanked wording (codes "shop" ∷ []) (entry ∷ second ∷ [])

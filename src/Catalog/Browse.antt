-- ===== src/Catalog/Browse.antt =====
-- src/catalog.ts: list and search, with the filter that they share. Parameters: `toLowerCase`, whether
-- an extension is among a resource's, and the JSON text of its `bazaar` extension. A limit below 0
-- counts as 0, and a fractional one as its floor.
pub mod Tokens
pub mod Pages
pub mod Ranking
pub mod Fusion
mod Tests
use vellar_facilitator.Base.{
  ℕ, zero, suc, ◌+◌, ◌*◌, Bool, true, false, not, ◌&&◌, ◌||◌, Option, none, some, List, [], ◌∷◌,
  ◌++◌, ltb, leb, ◌==◌, length, filter, if◌then◌else◌,
}
use vellar_facilitator.Base.Text.{codes, same_text, trim}
use vellar_facilitator.Base.Table.{Text, member}
use vellar_facilitator.Catalog.Sanitize.{Metadata, take}
use vellar_facilitator.Catalog.State.{
  Accept, DiscoveryResource, SettlementStats, StoredEntry, Catalog,
}
use vellar_facilitator.Catalog.Browse.Tokens.{tokenize, expand_with_synonyms, stem}
use vellar_facilitator.Fence.{starts_with}
use vellar_facilitator.Trust.Annotate.{Listing, TrustBlock}
use mathlib.Core.List.{map}

abbrev pub default_limit : ℕ
default_limit = 20

abbrev pub max_limit : ℕ
max_limit = 100

-- What the texts of a resource and of a query are read with. `similarity` is what the vectors say of a
-- query: `none` while the query's own is not at hand, and of an entry `none` if it has none. It and
-- `rrf_score`, of two ranks, are floating-point numbers, given by natural ones of the same order.
pub record Wording : Type 0 where
  pub to_lower_case : Text → Text
  pub has_extension : Text → Metadata → Bool
  pub bazaar_text : Metadata → Text
  pub similarity : Text → Option (StoredEntry → Option ℕ)
  pub rrf_score : ℕ → ℕ → ℕ

-- clampLimit; `none` is a limit that is absent or not finite.
unfoldable pub clamp_limit : Option ℕ → ℕ
clamp_limit none = default_limit
clamp_limit (some n) = if leb n 1 then 1 else if leb max_limit n then max_limit else n

-- An absent parameter and an empty one filter nothing.
pub record Params : Type 0 where
  pub type : Text
  pub pay_to : Text
  pub scheme : Text
  pub network : Text
  pub extensions : Text
  pub asset : Text

abbrev pub some_accept : (Accept → Text) → Text → List Accept → Bool
some_accept field wanted [] = false
some_accept field wanted (a ∷ rest) = same_text (field a) wanted || some_accept field wanted rest

abbrev pub wants : Text → Bool → Bool
wants [] holds = true
wants (c ∷ cs) holds = holds

unfoldable pub matches : Wording → Params → DiscoveryResource → Bool
matches w p r =
    wants p.type (same_text r.type p.type)
    && wants p.pay_to (some_accept (λ a. a.pay_to) p.pay_to r.accepts)
    && wants p.scheme (some_accept (λ a. a.scheme) p.scheme r.accepts)
    && wants p.network (some_accept (λ a. a.network) p.network r.accepts)
    && wants p.extensions (w.has_extension p.extensions r.metadata)
    && wants p.asset (some_accept (λ a. a.asset) p.asset r.accepts)

unfoldable pub filter_entries : Wording → Params → Catalog → List StoredEntry
filter_entries w p c = filter (λ e. matches w p e.resource) (map (λ kv. kv.1) c.entries)

-- toItem.
unfoldable pub to_item : StoredEntry → Listing
to_item e = record {
  resource = e.resource;
  trust = some (record {
    settlements = e.stats.settlements;
    unique_payers = length e.stats.payers;
    last_settled = e.stats.last_settled;
    observed_settlements = some e.stats.observed;
    is_persisted = some e.restored;
    verification = none;
    accepts_verification = none;
    owner_verified = none;
    ownership_state = none;
    accepts_payability = none;
  });
}

-- `xs.slice(offset, offset + limit)`.
unfoldable pub slice {ℓ} : {A : Type ℓ} → ℕ → ℕ → List A → List A
slice offset zero xs = []
slice offset (suc limit) [] = []
slice zero (suc limit) (x ∷ xs) = x ∷ slice zero limit xs
slice (suc offset) (suc limit) (x ∷ xs) = slice offset (suc limit) xs

pub record Page : Type 0 where
  pub items : List Listing
  pub limit : ℕ
  pub offset : ℕ
  pub total : ℕ

unfoldable pub list_resources : Wording → Params → Option ℕ → ℕ → Catalog → Page
list_resources w p limit offset c =
    let matched = map to_item (filter_entries w p c) in
    record {
      items = slice offset (clamp_limit limit) matched;
      limit = clamp_limit limit;
      offset = offset;
      total = length matched;
    }

-- `haystack.includes(token)`.
unfoldable pub has_token : Text → Text → Bool
has_token token [] = starts_with token []
has_token token (c ∷ cs) = starts_with token (c ∷ cs) || has_token token cs

-- What one token adds for one field.
unfoldable pub token_score : Text → List Text → ℕ → Text → ℕ
token_score haystack words weight token =
    if member token words then weight * 2 else if has_token token haystack then weight else 0

abbrev pub sum : List ℕ → ℕ
sum [] = 0
sum (n ∷ ns) = n + sum ns

unfoldable pub field_score : Wording → List Text → Text × ℕ → ℕ
field_score w tokens (field, weight) =
    let haystack = w.to_lower_case field in
    let words = map stem (tokenize haystack) in
    sum (map (λ t. token_score haystack words weight t) tokens)

abbrev pub text_or_empty : Option Text → Text
text_or_empty none = []
text_or_empty (some t) = t

-- `tags.join(" ")`.
abbrev pub join_tags : List Text → Text
join_tags [] = []
join_tags (t ∷ []) = t
join_tags (t ∷ u ∷ ts) = t ++ b' ' ∷ join_tags (u ∷ ts)

abbrev pub tags_or_empty : Option (List Text) → List Text
tags_or_empty none = []
tags_or_empty (some ts) = ts

abbrev pub tool_field : Text → List (Text × ℕ)
tool_field [] = []
tool_field (c ∷ cs) = (c ∷ cs, 1) ∷ []

unfoldable pub fields_of : Wording → DiscoveryResource → List (Text × ℕ)
fields_of w r =
    (text_or_empty r.metadata.service_name, 4)
    ∷ (join_tags (tags_or_empty r.metadata.tags), 3)
    ∷ (text_or_empty r.metadata.description, 2)
    ∷ (r.resource, 1)
    ∷ tool_field (if same_text r.type (codes "mcp") then w.bazaar_text r.metadata else [])

unfoldable pub score_resource : Wording → List Text → StoredEntry → ℕ
score_resource w [] e = e.stats.settlements * 2 + length e.stats.payers
score_resource w (t ∷ ts) e = sum (map (λ f. field_score w (t ∷ ts) f) (fields_of w e.resource))

unfoldable pub query_tokens : Wording → Text → List Text
query_tokens w query = map stem (expand_with_synonyms (tokenize (w.to_lower_case query)))

-- The comparison of the lexical ranking: the higher score first, then the more recent.
unfoldable pub ranks_before : StoredEntry × ℕ → StoredEntry × ℕ → Bool
ranks_before (a, m) (b, n) =
    ltb n m || (m == n && leb b.resource.last_updated a.resource.last_updated)

unfoldable pub insert_ranked : StoredEntry × ℕ → List (StoredEntry × ℕ) → List (StoredEntry × ℕ)
insert_ranked x [] = x ∷ []
insert_ranked x (y ∷ ys) =
    let rest = insert_ranked x ys in if ranks_before x y then x ∷ y ∷ ys else y ∷ rest

unfoldable pub sort_ranked : List (StoredEntry × ℕ) → List (StoredEntry × ℕ)
sort_ranked [] = []
sort_ranked (x ∷ xs) = insert_ranked x (sort_ranked xs)

unfoldable pub lexical_ranking : Wording → List Text → List StoredEntry → List (StoredEntry × ℕ)
lexical_ranking w tokens candidates =
    sort_ranked (filter (λ s. ltb 0 s.1) (map (λ e. (e, score_resource w tokens e)) candidates))

-- A page of a search; `next` is the offset of the cursor that goes with it.
pub record SearchPage : Type 0 where
  pub resources : List Listing
  pub partial_results : Bool
  pub next : Option ℕ

unfoldable pub search_page : List Listing → ℕ → ℕ → SearchPage
search_page scored limit offset =
    let page = slice offset limit scored in
    let next_offset = offset + length page in
    let has_more = ltb next_offset (length scored) in
    record {
      resources = page;
      partial_results = has_more;
      next = if has_more then some next_offset else none;
    }

-- A cursor's offset and key, which counts only if it is that of the same query and filters.
unfoldable pub offset_of : Text → Option (ℕ × Text) → ℕ
offset_of filter_key none = 0
offset_of filter_key (some (o, k)) = if same_text k filter_key then o else 0

-- fuseWithVectorRanking. The entries that have a vector, with their similarity.
abbrev pub cons_similar : StoredEntry → Option ℕ → List (StoredEntry × ℕ) → List (StoredEntry × ℕ)
cons_similar e none rest = rest
cons_similar e (some n) rest = (e, n) ∷ rest

unfoldable pub similar : (StoredEntry → Option ℕ) → List StoredEntry → List (StoredEntry × ℕ)
similar near [] = []
similar near (e ∷ es) = cons_similar e (near e) (similar near es)

-- `.sort((a, b) => b.similarity - a.similarity)`.
unfoldable pub insert_similar : StoredEntry × ℕ → List (StoredEntry × ℕ) → List (StoredEntry × ℕ)
insert_similar x [] = x ∷ []
insert_similar x (y ∷ ys) =
    let rest = insert_similar x ys in if ltb x.1 y.1 then y ∷ rest else x ∷ y ∷ ys

unfoldable pub sort_similar : List (StoredEntry × ℕ) → List (StoredEntry × ℕ)
sort_similar [] = []
sort_similar (x ∷ xs) = insert_similar x (sort_similar xs)

-- The rank of an entry in a ranking, from `i` on, or `miss`.
unfoldable pub rank_from : ℕ → ℕ → StoredEntry → List StoredEntry → ℕ
rank_from i miss e [] = miss
rank_from i miss e (x ∷ xs) =
    let rest = rank_from (suc i) miss e xs in if x.object == e.object then i else rest

-- The score of the two ranks, counted from 1; what a ranking misses ranks past its end.
unfoldable pub fused_score : Wording → List StoredEntry → List StoredEntry → StoredEntry → ℕ
fused_score w lexical vectored e =
    w.rrf_score (rank_from 1 (suc (length lexical)) e lexical)
      (rank_from 1 (suc (length vectored)) e vectored)

abbrev pub same_object : StoredEntry → StoredEntry → Bool
same_object e x = x.object == e.object

unfoldable pub holds_entry : StoredEntry → List StoredEntry → Bool
holds_entry e [] = false
holds_entry e (x ∷ xs) = same_object e x || holds_entry e xs

-- `new Set([...lexicalRank.keys(), ...vectorRank.keys()])`.
unfoldable pub union : List StoredEntry → List StoredEntry → List StoredEntry
union lexical vectored = lexical ++ filter (λ e. not (holds_entry e lexical)) vectored

unfoldable pub fuse : Wording → List StoredEntry → List StoredEntry → List StoredEntry
fuse w lexical [] = lexical
fuse w lexical (v ∷ vs) =
    map (λ s. s.0)
      (sort_ranked (map (λ e. (e, fused_score w lexical (v ∷ vs) e)) (union lexical (v ∷ vs))))

abbrev pub fuse_known :
    Wording
    → List StoredEntry
    → List StoredEntry
    → Option (StoredEntry → Option ℕ)
    → List StoredEntry
fuse_known w lexical candidates none = lexical
fuse_known w lexical candidates (some near) =
    fuse w lexical (map (λ s. s.0) (sort_similar (similar near candidates)))

-- An empty query has no vector.
unfoldable pub fuse_with_vector_ranking :
    Wording → List StoredEntry → List StoredEntry → Text → List StoredEntry
fuse_with_vector_ranking w lexical candidates query =
    if length (trim query) == 0
    then lexical
    else fuse_known w lexical candidates (w.similarity (trim query))

-- The whole ranking of a search.
unfoldable pub search_results : Wording → Params → Text → Catalog → List Listing
search_results w p query c =
    let candidates = filter_entries w p c in
    let lexical = map (λ s. s.0) (lexical_ranking w (query_tokens w query) candidates) in
    map to_item (fuse_with_vector_ranking w lexical candidates query)

unfoldable pub search :
    Wording → Params → Text → Option ℕ → Text → Option (ℕ × Text) → Catalog → SearchPage
search w p query limit filter_key cursor c =
    search_page (search_results w p query c) (clamp_limit limit) (offset_of filter_key cursor)

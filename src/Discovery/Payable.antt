-- ===== src/Discovery/Payable.antt =====
-- src/server.ts: what payable_only lets through GET /discovery/search, whose page is also reordered.
use vellar_facilitator.Base.{
  ℕ, ◌≡◌, refl, sym, ◌∙◌, ap, subst, Bool, true, false, ◌&&◌, Option, none, some, List, [], ◌∷◌,
  arith, All, All-imp, All-map, All-map_every, All-filter, all, filter, leb, if_cases,
  if◌then◌else◌, length, ◌==◌,
}
use vellar_facilitator.Base.Table.{Text}
use vellar_facilitator.Catalog.State.{Env, Accept, Catalog}
use vellar_facilitator.Catalog.Browse.{Wording, Params, SearchPage, search}
use vellar_facilitator.Payability.Page.{
  annotate_payability, prune_by, prune_item, has_accepts, filter_payable_only,
}
use vellar_facilitator.Payability.Pruned.{may_be_paid, verdicts, kept-accepts}
use vellar_facilitator.Trust.Annotate.{
  Listing, TrustBlock, verification_of, is_verified, filter_verified_only, insert_by_rank,
  rerank_verified_first, rank_of,
}
use vellar_facilitator.Discovery.{
  PayabilityLayer, TrustLayer, Layers, Only, is_unanswerable, trusted, annotate, order_found,
  finish_search, search_route,
}
use vellar_facilitator.Discovery.Filters.{found_of}
use mathlib.Core.List.{map}

all-filter : (q : Accept → Bool) (accepts : List Accept) → all q (filter q accepts) ≡ true
all-filter q [] = refl
all-filter q (a ∷ rest) = ground (arith, all-filter q rest)

module _ {κ} (P : Listing → Type κ) where
  insert_by_rank-All :
      (x : Listing) (items : List Listing) → P x → All P items → All P (insert_by_rank x items)
  unfolding insert_by_rank
  insert_by_rank-All x [] h k = (h, tt)
  insert_by_rank-All x (y ∷ items) h k =
      let rest = insert_by_rank-All x items h k.1 in
      if_cases (λ r. All P r) (leb (rank_of x) (rank_of y)) (λ _. (h, k)) (λ _. (k.0, rest))

  rerank-All : (items : List Listing) → All P items → All P (rerank_verified_first items)
  unfolding rerank_verified_first
  rerank-All [] h = tt
  rerank-All (x ∷ items) h =
      insert_by_rank-All x (rerank_verified_first items) h.0 (rerank-All items h.1)

  verified_only-All : (items : List Listing) → All P items → All P (filter_verified_only items)
  unfolding filter_verified_only
  verified_only-All items h =
      All-imp (λ i. P i × (is_verified (verification_of i.trust) ≡ true)) P
        (filter (λ i. is_verified (verification_of i.trust)) items) (λ i k. k.0)
        (All-filter P (λ i. is_verified (verification_of i.trust)) items h)

module _ (p : PayabilityLayer) where
  -- A listing that carries the verdicts of its options.
  abbrev IsAnnotated : Listing → Type 0
  IsAnnotated i =
      (b : TrustBlock) × (i.trust ≡ some b)
      × (b.accepts_payability ≡ some (verdicts p.remaining p.check i.resource.accepts))

  -- It has a payment option, and none that is known to be unpayable.
  abbrev pub MayBePaid : Listing → Type 0
  MayBePaid i =
      (all (λ a. may_be_paid p.remaining p.check a) i.resource.accepts ≡ true)
      × (has_accepts i ≡ true)

  annotate_payability-IsAnnotated :
      (i : Listing) → IsAnnotated (annotate_payability p.remaining p.check i)
  unfolding annotate_payability
  annotate_payability-IsAnnotated i = (_, refl, refl)

  abbrev AllPayable : Listing → Type 0
  AllPayable i = all (λ a. may_be_paid p.remaining p.check a) i.resource.accepts ≡ true

  prune_item-AllPayable : (i : Listing) → IsAnnotated i → AllPayable (prune_item i i.trust)
  prune_item-AllPayable i (b, carries, known) =
      subst (λ m. AllPayable (prune_item i m)) (sym carries)
        (subst (λ m. AllPayable (prune_by i b m)) (sym known)
          (ap (all (λ a. may_be_paid p.remaining p.check a))
              (kept-accepts p.remaining p.check i.resource.accepts)
            ∙ all-filter (λ a. may_be_paid p.remaining p.check a) i.resource.accepts))

  payable_only-MayBePaid :
      (items : List Listing) → All IsAnnotated items → All MayBePaid (filter_payable_only items)
  unfolding filter_payable_only
  payable_only-MayBePaid items h =
      All-filter AllPayable has_accepts (map (λ i. prune_item i i.trust) items)
        (All-map IsAnnotated AllPayable (λ i. prune_item i i.trust) items prune_item-AllPayable h)

module _ (env : Env) (w : Wording) (p : PayabilityLayer) (trust : Option TrustLayer)
    (verified : Bool) (c : Catalog) where
  abbrev layers : Layers
  layers = record { trust = trust; payability = some p }

  abbrev only_payable : Only
  only_payable = record { verified = verified; payable = true }

  order_found-MayBePaid :
      (b : Bool) (items : List Listing)
      → All (λ i. IsAnnotated p i) items
      → All
          (λ i. MayBePaid p i)
          (filter_payable_only
            (if b then filter_verified_only items else rerank_verified_first items))
  order_found-MayBePaid true items h =
      payable_only-MayBePaid p (filter_verified_only items)
        (verified_only-All (λ i. IsAnnotated p i) items h)
  order_found-MayBePaid false items h =
      payable_only-MayBePaid p (rerank_verified_first items)
        (rerank-All (λ i. IsAnnotated p i) items h)

  finish_search-MayBePaid :
      (m : Option TrustLayer) (page : SearchPage)
      → All
          (λ i. MayBePaid p i)
          (finish_search env c
            (record { trust = m; payability = some p })
            only_payable
            page).resources
  unfolding finish_search order_found annotate
  finish_search-MayBePaid none page = order_found-MayBePaid verified _ (
      All-map_every (λ i. IsAnnotated p i) (annotate_payability p.remaining p.check) page.resources
        (annotate_payability-IsAnnotated p))
  finish_search-MayBePaid (some t) page = order_found-MayBePaid verified _ (
      All-map_every (λ i. IsAnnotated p i) (annotate_payability p.remaining p.check)
        (trusted env c (some t) page.resources) (annotate_payability-IsAnnotated p))

  -- Where the payability layer is there, every listing that GET /discovery/search sends for a query with
  -- payable_only has a payment option, and none that is known to be unpayable, with the trust layer or
  -- without, and whether the page is reordered or kept to verified listings.
  pub search_route-MayBePaid :
      (q : Params) (query : Text) (limit : Option ℕ) (key : Text) (cursor : Option (ℕ × Text))
      → All
          (λ i. MayBePaid p i)
          (found_of (search_route env w layers only_payable q query limit key cursor c))
  unfolding search_route
  search_route-MayBePaid q query limit key cursor =
      let page = search w (record q { asset = [] }) query limit key cursor c in
      if_cases (λ r. All (λ i. MayBePaid p i) (found_of r)) (length query == 0) (λ _. tt)
        (λ _.
          if_cases (λ r. All (λ i. MayBePaid p i) (found_of r)) (verified && is_unanswerable trust)
            (λ _. tt) (λ _. finish_search-MayBePaid trust page))

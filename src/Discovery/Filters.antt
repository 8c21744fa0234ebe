-- ===== src/Discovery/Filters.antt =====
-- src/server.ts: what the filters of the discovery routes let through.
use vellar_facilitator.Base.{
  ℕ, ◌≡◌, refl, sym, ◌∙◌, Bool, true, false, not, ◌&&◌, Option, none, some, List, [], ◌∷◌, arith,
  All, All-imp, All-map, All-map_every, All-filter, all, filter, if_cases, if◌then◌else◌,
}
use vellar_facilitator.Base.Table.{Text}
use vellar_facilitator.Catalog.State.{Env, Accept, Catalog}
use vellar_facilitator.Catalog.Browse.{Wording, Params, Page}
use vellar_facilitator.Payability.{Verdict as Payability}
use vellar_facilitator.Payability.Page.{
  annotate_payability, kept_accepts, prune_by, prune_item, has_accepts, filter_payable_only,
}
use vellar_facilitator.Trust.Annotate.{
  Listing, TrustBlock, annotate_trust, verification_of, is_verified, filter_verified_only,
}
use vellar_facilitator.Trust.Rollup.{pays_verified, has_some, annotate_trust-verified}
use vellar_facilitator.Discovery.{
  AssetFilter, malformed, absent, wanted, parse_asset_filter, TrustLayer, PayabilityLayer, Layers,
  Only, with_payability, annotate, apply_only, finish_list, ListReply, invalid_asset, listed,
  list_with, list_route, is_verified_owner, is_ever_verified, SearchReply, invalid_query, found,
}
use mathlib.Core.List.{map}

-- The owner is verified in the catalog, and each option that is offered pays in an asset that the verdict
-- source verified.
abbrev pub IsVouched : Env → Catalog → TrustLayer → Listing → Type 0
IsVouched env c t i =
    (is_verified_owner env c i.resource.resource ≡ true)
    × (all (λ a. pays_verified t.asset_status a) i.resource.accepts ≡ true)

owner_and_all :
    (owner : Bool) (q : Accept → Bool) (accepts : List Accept)
    → (has_some accepts && all (λ a. owner && q a) accepts) ≡ true
    → (owner ≡ true) × (all q accepts ≡ true)
owner_and_all owner q [] h = cc
owner_and_all true q (a ∷ []) h = (refl, h)
owner_and_all true q (a ∷ b ∷ rest) h = (refl, ground (arith, h, owner_and_all true q (b ∷ rest)))
owner_and_all false q (a ∷ rest) h = cc

all-kept :
    (q : Accept → Bool) (accepts : List Accept) (vs : List (Option Payability))
    → all q accepts ≡ true
    → all q (kept_accepts accepts vs) ≡ true
unfolding kept_accepts
all-kept q [] vs h = refl
all-kept q (a ∷ rest) [] h = ground (arith, h, all-kept q rest [])
all-kept q (a ∷ rest) (v ∷ vs) h = ground (arith, h, all-kept q rest vs)

module _ (env : Env) (c : Catalog) (t : TrustLayer) where
  abbrev annotation : Listing → Listing
  annotation i = annotate_trust t.asset_status (is_verified_owner env c) (is_ever_verified env c) i

  -- What is_verified reads in an annotated listing.
  abbrev VouchedIf : Listing → Type 0
  VouchedIf i = is_verified (verification_of i.trust) ≡ true → IsVouched env c t i

  annotation-VouchedIf : (i : Listing) → VouchedIf (annotation i)
  unfolding annotate_trust
  annotation-VouchedIf i h =
      owner_and_all (is_verified_owner env c i.resource.resource)
        (λ a. pays_verified t.asset_status a) i.resource.accepts
        (sym (
            annotate_trust-verified t.asset_status (is_verified_owner env c)
              (is_ever_verified env c) i)
          ∙ h)

  payability-VouchedIf :
      (p : PayabilityLayer) (i : Listing)
      → VouchedIf (annotate_payability p.remaining p.check (annotation i))
  unfolding annotate_payability annotate_trust
  payability-VouchedIf p i h = annotation-VouchedIf i h

  prune_by-IsVouched :
      (i : Listing) (b : TrustBlock) (m : Option (List (Option Payability)))
      → IsVouched env c t i
      → IsVouched env c t (prune_by i b m)
  prune_by-IsVouched i b none h = h
  prune_by-IsVouched i b (some vs) h =
      (h.0, all-kept (λ a. pays_verified t.asset_status a) i.resource.accepts vs h.1)

  prune_item-IsVouched :
      (i : Listing) (m : Option TrustBlock)
      → IsVouched env c t i
      → IsVouched env c t (prune_item i m)
  prune_item-IsVouched i none h = h
  prune_item-IsVouched i (some b) h = prune_by-IsVouched i b b.accepts_payability h

  verified_only-IsVouched :
      (items : List Listing)
      → All VouchedIf items
      → All (λ i. IsVouched env c t i) (filter_verified_only items)
  unfolding filter_verified_only
  verified_only-IsVouched items h =
      All-imp (λ i. VouchedIf i × (is_verified (verification_of i.trust) ≡ true))
        (λ i. IsVouched env c t i) (filter (λ i. is_verified (verification_of i.trust)) items)
        (λ i k. k.0 k.1) (All-filter VouchedIf (λ i. is_verified (verification_of i.trust)) items h)

  payable_only-IsVouched :
      (items : List Listing)
      → All (λ i. IsVouched env c t i) items
      → All (λ i. IsVouched env c t i) (filter_payable_only items)
  unfolding filter_payable_only
  payable_only-IsVouched items h =
      let pruned = map (λ i. prune_item i i.trust) items in
      All-imp (λ i. IsVouched env c t i × (has_accepts i ≡ true)) (λ i. IsVouched env c t i)
        (filter has_accepts pruned) (λ i k. k.0)
        (All-filter (λ i. IsVouched env c t i) has_accepts pruned
          (All-map (λ i. IsVouched env c t i) (λ i. IsVouched env c t i) (λ i. prune_item i i.trust)
            items (λ i k. prune_item-IsVouched i i.trust k) h))

  payable_if-IsVouched :
      (payable : Bool) (items : List Listing)
      → All (λ i. IsVouched env c t i) items
      → All (λ i. IsVouched env c t i) (if payable then filter_payable_only items else items)
  payable_if-IsVouched true items h = payable_only-IsVouched items h
  payable_if-IsVouched false items h = h

  -- Annotation with the trust layer, with or without the payability layer.
  annotated-VouchedIf :
      (pay : Option PayabilityLayer) (items : List Listing)
      → All VouchedIf (with_payability pay (map annotation items))
  annotated-VouchedIf none items = All-map_every VouchedIf annotation items annotation-VouchedIf
  annotated-VouchedIf (some p) [] = tt
  annotated-VouchedIf (some p) (i ∷ items) =
      (payability-VouchedIf p i, annotated-VouchedIf (some p) items)

-- The page of a reply, if it has one.
abbrev pub listed_of : ListReply → List Listing
listed_of invalid_asset = []
listed_of ListReply.verified_only_unavailable = []
listed_of (listed page) = page.items

abbrev pub found_of : SearchReply → List Listing
found_of invalid_query = []
found_of SearchReply.verified_only_unavailable = []
found_of (found page) = page.resources

module _ (env : Env) (w : Wording) (t : TrustLayer) (pay : Option PayabilityLayer) (payable : Bool)
    (c : Catalog) where
  abbrev layers : Layers
  layers = record { trust = some t; payability = pay }

  abbrev only_verified : Only
  only_verified = record { verified = true; payable = payable }

  finish_list-IsVouched :
      (page : Page)
      → All (λ i. IsVouched env c t i) (finish_list env c layers only_verified page).items
  unfolding finish_list apply_only annotate
  finish_list-IsVouched page =
      payable_if-IsVouched env c t payable (filter_verified_only (annotate env c layers page.items))
        (verified_only-IsVouched env c t (annotate env c layers page.items)
          (annotated-VouchedIf env c t pay page.items))

  list_with-IsVouched :
      (p : Params) (limit : Option ℕ) (offset : ℕ) (f : AssetFilter)
      → All
          (λ i. IsVouched env c t i)
          (listed_of (list_with env w layers only_verified p limit offset c f))
  list_with-IsVouched p limit offset malformed = tt
  list_with-IsVouched p limit offset absent = finish_list-IsVouched _
  list_with-IsVouched p limit offset (wanted a) = finish_list-IsVouched _

  -- Of a query with verified_only, every listing on the page that GET /discovery/resources sends has an
  -- owner that is verified in the catalog, and each of its payment options is in an asset that the verdict
  -- source verified, whether or not the payability layer and its filter have a part in the page.
  pub list_route-IsVouched :
      (p : Params) (asset : Option Text) (limit : Option ℕ) (offset : ℕ)
      → All
          (λ i. IsVouched env c t i)
          (listed_of (list_route env w layers only_verified p asset limit offset c))
  unfolding list_route
  list_route-IsVouched p asset limit offset =
      if_cases (λ r. All (λ i. IsVouched env c t i) (listed_of r)) (not t.has_verdict_source)
        (λ _. tt) (λ _. list_with-IsVouched p limit offset (parse_asset_filter asset))

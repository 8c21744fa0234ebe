-- ===== src/Discovery/Tests.antt =====
-- The theorems on src/server.ts's discovery routes at a catalog with one verified listing.
use vellar_facilitator.Base.Text.{same_text, includes}
use vellar_facilitator.Catalog.State.{key_of, entry_at}
use vellar_facilitator.Catalog.Key.{canonical_resource_key}
use vellar_facilitator.Catalog.Key.Path.{normalize_path}
use vellar_facilitator.Catalog.Browse.{
  list_resources, slice, clamp_limit, filter_entries, matches, to_item,
}
use vellar_facilitator.Payability.Page.{
  filter_payable_only, annotate_payability, verdict_of_option, check_within_budget, kept_accepts,
  kept_verdicts,
}
use vellar_facilitator.Trust.Annotate.{
  filter_verified_only, annotate_trust, accepts_verdicts, verdict_of_asset, clamp_by_owner,
  strict_min,
}
use vellar_facilitator.Discovery.{
  finish_list, apply_only, annotate, is_verified_owner, is_ever_verified,
}
use vellar_facilitator.Discovery.{has_control}
use vellar_facilitator.Base.Text.{trim}
use vellar_facilitator.Base.{
  ◌≡◌, refl, true, false, Option, none, some, [], ◌∷◌, All, length, ◌==◌, if◌then◌else◌,
}
use vellar_facilitator.Base.Text.{codes}
use vellar_facilitator.Base.Table.{Text}
use vellar_facilitator.Catalog.State.{Accept, StoredEntry, Catalog}
use vellar_facilitator.Catalog.Browse.{Wording, Params}
use vellar_facilitator.Payability.{Verdict as Payability, payable, not_payable}
use vellar_facilitator.Trust.{verified}
use vellar_facilitator.Discovery.{
  malformed, parse_asset_filter, TrustLayer, PayabilityLayer, list_route, search_route,
}
use vellar_facilitator.Discovery.Filters.{IsVouched, listed_of, found_of, list_route-IsVouched}
use vellar_facilitator.Discovery.Payable.{MayBePaid, search_route-MayBePaid}
use vellar_facilitator.Catalog.Tests.{env, shop, ga, entry, resource, listed}

abbrev offer : Text → Accept
offer asset = record {
  scheme = codes "exact";
  network = codes "stellar:pubnet";
  asset = asset;
  amount = codes "5";
  pay_to = ga;
  max_timeout_seconds = none;
  extra = none;
}

-- It offers two assets, and has been settled once.
abbrev sold : StoredEntry
sold = record entry {
  resource = record resource { accepts = offer (codes "USDC") ∷ offer (codes "EURC") ∷ [] };
  stats = record { settlements = 1; observed = 1; payers = []; last_settled = none };
  verified_owner = true;
}

abbrev shelf : Catalog
shelf = record listed { entries = (shop, sold) ∷ [] }

abbrev wording : Wording
wording = record {
  to_lower_case = λ t. t;
  has_extension = λ t m. false;
  bazaar_text = λ m. [];
  similarity = λ q. none;
  rrf_score = λ a b. 0;
}

abbrev anything : Params
anything = record { type = []; pay_to = []; scheme = []; network = []; extensions = []; asset = [] }

abbrev source : TrustLayer
source = record { asset_status = λ t. verified; has_verdict_source = true }

-- EURC cannot be paid.
abbrev payer_of : Text → Text → Option Payability
payer_of pay_to [] = none
payer_of pay_to (c ∷ cs) = if c == b'U' then some payable else some not_payable

abbrev horizon : PayabilityLayer
horizon = record { remaining = 9; check = payer_of }

both_listed :
    length (
      listed_of (
        list_route env wording
          (record { trust = some source; payability = some horizon })
          (record { verified = true; payable = true })
          anything
          none
          (some 5)
          0
          shelf))
    ≡ 1
unfolding list_route parse_asset_filter finish_list apply_only filter_payable_only
    filter_verified_only annotate list_resources slice clamp_limit filter_entries matches to_item
    annotate_trust annotate_payability accepts_verdicts verdict_of_asset clamp_by_owner strict_min
    is_verified_owner is_ever_verified key_of canonical_resource_key same_text includes
    normalize_path entry_at verdict_of_option check_within_budget kept_accepts kept_verdicts
both_listed = refl

list_route-IsVouched_example :
    All
      (λ i. IsVouched env shelf source i)
      (listed_of (
        list_route env wording
          (record { trust = some source; payability = some horizon })
          (record { verified = true; payable = true })
          anything
          (some (codes " USDC "))
          (some 5)
          0
          shelf))
list_route-IsVouched_example =
    list_route-IsVouched env wording source (some horizon) true shelf anything
      (some (codes " USDC ")) (some 5) 0

search_route-MayBePaid_example :
    All
      (λ i. MayBePaid horizon i)
      (found_of (
        search_route env wording
          (record { trust = some source; payability = some horizon })
          (record { verified = false; payable = true })
          anything
          (codes "shop a.io")
          none
          (codes "k")
          none
          shelf))
search_route-MayBePaid_example =
    search_route-MayBePaid env wording horizon (some source) false shelf anything
      (codes "shop a.io") none (codes "k") none

two_assets : parse_asset_filter (some (codes "US DC")) ≡ malformed
unfolding parse_asset_filter trim has_control
two_assets = refl

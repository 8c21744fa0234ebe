-- ===== src/Discovery.antt =====
-- src/server.ts: GET /discovery/resources and GET /discovery/search, which annotate, filter and reorder
-- what the catalog lists or finds. The query's limit and offset come as numbers; whether a cursor decodes
-- is a value.
pub mod Filters
pub mod Payable
mod Tests
use vellar_facilitator.Base.{
  ℕ, ◌+◌, ◌-◌, Bool, true, false, not, ◌&&◌, ◌||◌, Option, none, some, List, [], ◌∷◌, length, ltb,
  leb, ◌==◌, if◌then◌else◌,
}
use vellar_facilitator.Base.Text.{trim, is_space}
use vellar_facilitator.Base.Table.{Text, member}
use vellar_facilitator.Catalog.State.{Env, StoredEntry, Catalog, key_of, entry_at}
use vellar_facilitator.Catalog.Browse.{Wording, Params, Page, SearchPage, list_resources, search}
use vellar_facilitator.Payability.{Verdict as Payability}
use vellar_facilitator.Payability.Page.{annotate_payability, filter_payable_only}
use vellar_facilitator.Trust.{Verdict}
use vellar_facilitator.Trust.Annotate.{
  Listing, annotate_trust, filter_verified_only, rerank_verified_first,
}
use mathlib.Core.List.{map}

-- isVerifiedOwner and isEverVerified.
abbrev pub owner_flag : Option StoredEntry → Bool
owner_flag none = false
owner_flag (some entry) = entry.verified_owner

unfoldable pub is_verified_owner : Env → Catalog → Text → Bool
is_verified_owner env c url = owner_flag (entry_at c (key_of env url none))

unfoldable pub is_ever_verified : Env → Catalog → Text → Bool
is_ever_verified env c url = elim (key_of env url none) [
  | none ↦ false
  | some key ↦ member key c.ever_verified
]

abbrev pub max_asset_filter_len : ℕ
max_asset_filter_len = 56

-- `/[\s\u0000-\u001f\u007f]/.test(t)`.
unfoldable pub has_control : Text → Bool
has_control [] = false
has_control (c ∷ cs) = is_space c || leb c 31 || c == 127 || has_control cs

pub data AssetFilter : Type 0 where
  malformed absent : AssetFilter
  wanted : Text → AssetFilter

unfoldable pub parse_asset_filter : Option Text → AssetFilter
parse_asset_filter none = absent
parse_asset_filter (some raw) =
    let trimmed = trim raw in
    if length trimmed == 0
    then malformed
    else if ltb max_asset_filter_len (length trimmed)
    then malformed
    else if has_control trimmed
    then malformed
    else wanted trimmed

-- The layers that a deployment may lack: the trust resolver's verdict on an asset, with whether it has a
-- source of verdicts; and the payability of a pair, within the time that is left.
pub record TrustLayer : Type 0 where
  pub asset_status : Text → Verdict
  pub has_verdict_source : Bool

pub record PayabilityLayer : Type 0 where
  pub remaining : ℕ
  pub check : Text → Text → Option Payability

pub record Layers : Type 0 where
  pub trust : Option TrustLayer
  pub payability : Option PayabilityLayer

-- The query's `verified_only === "true"` and `payable_only === "true"`.
pub record Only : Type 0 where
  pub verified : Bool
  pub payable : Bool

abbrev pub is_unanswerable : Option TrustLayer → Bool
is_unanswerable none = true
is_unanswerable (some t) = not t.has_verdict_source

abbrev pub trusted : Env → Catalog → Option TrustLayer → List Listing → List Listing
trusted env c none items = items
trusted env c (some t) items =
    map (annotate_trust t.asset_status (is_verified_owner env c) (is_ever_verified env c)) items

abbrev pub with_payability : Option PayabilityLayer → List Listing → List Listing
with_payability none items = items
with_payability (some p) items = map (annotate_payability p.remaining p.check) items

-- Both annotations, in the order in which the routes make them.
unfoldable pub annotate : Env → Catalog → Layers → List Listing → List Listing
annotate env c l items = with_payability l.payability (trusted env c l.trust items)

abbrev pub has_no_layer : Layers → Bool
has_no_layer l = elim l.trust [
  | none ↦ elim l.payability [ none ↦ true | some p ↦ false ]
  | some t ↦ false
]

unfoldable pub apply_only : Only → List Listing → List Listing
apply_only only items =
    let verified = if only.verified then filter_verified_only items else items in
    if only.payable then filter_payable_only verified else verified

-- What the route makes of the catalog's page; `Math.max(0, …)` is what subtraction on ℕ does.
unfoldable pub finish_list : Env → Catalog → Layers → Only → Page → Page
finish_list env c l only page =
    let annotated = annotate env c l page.items in
    let items = apply_only only annotated in
    let dropped = length annotated - length items in
    if has_no_layer l
    then page
    else if only.verified || only.payable
    then record page { items = items; total = page.total - dropped }
    else record page { items = items }

pub data ListReply : Type 0 where
  verified_only_unavailable invalid_asset : ListReply
  listed : Page → ListReply

abbrev pub list_with :
    Env → Wording → Layers → Only → Params → Option ℕ → ℕ → Catalog → AssetFilter → ListReply
list_with env w l only p limit offset c malformed = invalid_asset
list_with env w l only p limit offset c absent =
    listed (finish_list env c l only (list_resources w (record p { asset = [] }) limit offset c))
list_with env w l only p limit offset c (wanted t) =
    listed (finish_list env c l only (list_resources w (record p { asset = t }) limit offset c))

-- GET /discovery/resources.
unfoldable pub list_route :
    Env → Wording → Layers → Only → Params → Option Text → Option ℕ → ℕ → Catalog → ListReply
list_route env w l only p asset limit offset c =
    if only.verified && is_unanswerable l.trust
    then verified_only_unavailable
    else list_with env w l only p limit offset c (parse_asset_filter asset)

pub data SearchReply : Type 0 where
  invalid_query verified_only_unavailable : SearchReply
  found : SearchPage → SearchReply

-- Verified ones first within the ranking, or only them.
unfoldable pub order_found : Only → List Listing → List Listing
order_found only items =
    let ordered =
      if only.verified then filter_verified_only items else rerank_verified_first items in
    if only.payable then filter_payable_only ordered else ordered

unfoldable pub finish_search : Env → Catalog → Layers → Only → SearchPage → SearchPage
finish_search env c l only page =
    if has_no_layer l
    then page
    else record page { resources = order_found only (annotate env c l page.resources) }

-- GET /discovery/search; an absent query is the empty text.
unfoldable pub search_route :
    Env
    → Wording
    → Layers
    → Only
    → Params
    → Text
    → Option ℕ
    → Text
    → Option (ℕ × Text)
    → Catalog
    → SearchReply
search_route env w l only p query limit filter_key cursor c =
    if length query == 0
    then invalid_query
    else if only.verified && is_unanswerable l.trust
    then SearchReply.verified_only_unavailable
    else found (
        finish_search env c l only
          (search w (record p { asset = [] }) query limit filter_key cursor c))

-- ===== src/Trust/Annotate.antt =====
-- src/trust.ts: annotateTrust, filterVerifiedOnly and rerankVerifiedFirst. The verdicts of the assets
-- and the two answers of the catalog on ownership are functions.
use vellar_facilitator.Base.{
  ℕ, Bool, true, false, Option, none, some, List, [], ◌∷◌, leb, filter, if◌then◌else◌,
}
use vellar_facilitator.Base.Table.{Text}
use vellar_facilitator.Catalog.State.{DiscoveryResource, Accept}
use vellar_facilitator.Trust.{Verdict, verified, unverified, unknown}
use vellar_facilitator.Payability.{Verdict as Payability}
use mathlib.Core.List.{map}

pub data OwnershipState : Type 0 where
  unproven proven_unconfirmed proven : OwnershipState

-- The `trust` block of a listing; an `undefined` among the payability verdicts is `none`.
pub record TrustBlock : Type 0 where
  pub settlements : ℕ
  pub unique_payers : ℕ
  pub last_settled : Option ℕ
  pub observed_settlements : Option ℕ
  pub is_persisted : Option Bool
  pub verification : Option Verdict
  pub accepts_verification : Option (List Verdict)
  pub owner_verified : Option Bool
  pub ownership_state : Option OwnershipState
  pub accepts_payability : Option (List (Option Payability))

-- TrustedDiscoveryResource.
pub record Listing : Type 0 where
  pub resource : DiscoveryResource
  pub trust : Option TrustBlock

-- RANK, and `v` or what is worse.
abbrev pub worse : Verdict → Verdict → Verdict
worse verified v = v
worse unknown verified = unknown
worse unknown unknown = unknown
worse unknown unverified = unverified
worse unverified v = unverified

abbrev pub worst_from : Verdict → List Verdict → Verdict
worst_from worst [] = worst
worst_from worst (v ∷ vs) = worst_from (worse worst v) vs

unfoldable pub strict_min : List Verdict → Verdict
strict_min [] = unknown
strict_min (v ∷ vs) = worst_from verified (v ∷ vs)

unfoldable pub clamp_by_owner : Bool → Verdict → Verdict
clamp_by_owner true v = v
clamp_by_owner false verified = unknown
clamp_by_owner false unverified = unverified
clamp_by_owner false unknown = unknown

unfoldable pub ownership_state_of : Bool → Bool → OwnershipState
ownership_state_of true ever_verified = proven
ownership_state_of false true = proven_unconfirmed
ownership_state_of false false = unproven

-- An asset that is absent has no verdict.
unfoldable pub verdict_of_asset : (Text → Verdict) → Text → Verdict
verdict_of_asset asset_status [] = unknown
verdict_of_asset asset_status (c ∷ cs) = asset_status (c ∷ cs)

-- The fields of the block that annotation carries over, of a block that may be absent.
abbrev pub carried : Option TrustBlock → TrustBlock
carried none = record {
  settlements = 0;
  unique_payers = 0;
  last_settled = none;
  observed_settlements = none;
  is_persisted = none;
  verification = none;
  accepts_verification = none;
  owner_verified = none;
  ownership_state = none;
  accepts_payability = none;
}
carried (some t) = t

unfoldable pub accepts_verdicts : (Text → Verdict) → Bool → List Accept → List Verdict
accepts_verdicts asset_status owner_verified accepts =
    map (λ a. clamp_by_owner owner_verified (verdict_of_asset asset_status a.asset)) accepts

unfoldable pub annotate_trust : (Text → Verdict) → (Text → Bool) → (Text → Bool) → Listing → Listing
annotate_trust asset_status is_owner_verified is_ever_verified item =
    let url = item.resource.resource in
    let verdicts = accepts_verdicts asset_status (is_owner_verified url) item.resource.accepts in
    record item {
      trust = some (record (carried item.trust) {
        verification = some (strict_min verdicts);
        accepts_verification = some verdicts;
        owner_verified = some (is_owner_verified url);
        ownership_state = some (ownership_state_of (is_owner_verified url) (is_ever_verified url));
        accepts_payability = none;
      });
    }

abbrev pub verification_of : Option TrustBlock → Option Verdict
verification_of none = none
verification_of (some t) = t.verification

abbrev pub is_verified : Option Verdict → Bool
is_verified none = false
is_verified (some verified) = true
is_verified (some unverified) = false
is_verified (some unknown) = false

unfoldable pub filter_verified_only : List Listing → List Listing
filter_verified_only items = filter (λ i. is_verified (verification_of i.trust)) items

abbrev pub rank : Option Verdict → ℕ
rank none = 2
rank (some verified) = 0
rank (some unknown) = 1
rank (some unverified) = 2

abbrev pub rank_of : Listing → ℕ
rank_of item = rank (verification_of item.trust)

-- `[...items].sort((a, b) => rank(a) - rank(b))`, which keeps the order of equal ones.
unfoldable pub insert_by_rank : Listing → List Listing → List Listing
insert_by_rank x [] = x ∷ []
insert_by_rank x (y ∷ ys) =
    let rest = insert_by_rank x ys in if leb (rank_of x) (rank_of y) then x ∷ y ∷ ys else y ∷ rest

unfoldable pub rerank_verified_first : List Listing → List Listing
rerank_verified_first [] = []
rerank_verified_first (x ∷ xs) = insert_by_rank x (rerank_verified_first xs)

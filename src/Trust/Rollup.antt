-- ===== src/Trust/Rollup.antt =====
-- src/trust.ts: when a listing reads verified.
use vellar_facilitator.Base.{◌≡◌, refl, ◌∙◌, ap₂, Bool, true, false, ◌&&◌, some, List, [], ◌∷◌, all}
use vellar_facilitator.Base.Table.{Text}
use vellar_facilitator.Catalog.State.{Accept}
use vellar_facilitator.Trust.{Verdict, verified, unverified, unknown}
use vellar_facilitator.Trust.Annotate.{
  Listing, worst_from, strict_min, clamp_by_owner, verdict_of_asset, accepts_verdicts,
  annotate_trust, verification_of, is_verified,
}

-- An option whose asset is named and verified.
unfoldable pub pays_verified : (Text → Verdict) → Accept → Bool
pays_verified asset_status a = is_verified (some (verdict_of_asset asset_status a.asset))

abbrev pub has_some {ℓ} : {A : Type ℓ} → List A → Bool
has_some [] = false
has_some (x ∷ xs) = true

worst_from-worst :
    (v : Verdict) (vs : List Verdict)
    → is_verified (some (worst_from v vs))
      ≡ (is_verified (some v) && all (λ w. is_verified (some w)) vs)
worst_from-worst verified [] = refl
worst_from-worst unverified [] = refl
worst_from-worst unknown [] = refl
worst_from-worst verified (w ∷ vs) = worst_from-worst w vs
worst_from-worst unverified (w ∷ vs) = worst_from-worst unverified vs
worst_from-worst unknown (verified ∷ vs) = worst_from-worst unknown vs
worst_from-worst unknown (unverified ∷ vs) = worst_from-worst unverified vs
worst_from-worst unknown (unknown ∷ vs) = worst_from-worst unknown vs

strict_min-verified :
    (vs : List Verdict)
    → is_verified (some (strict_min vs)) ≡ (has_some vs && all (λ w. is_verified (some w)) vs)
unfolding strict_min
strict_min-verified [] = refl
strict_min-verified (v ∷ vs) = worst_from-worst verified (v ∷ vs)

clamp-verified :
    (owner : Bool) (v : Verdict)
    → is_verified (some (clamp_by_owner owner v)) ≡ (owner && is_verified (some v))
unfolding clamp_by_owner
clamp-verified true v = refl
clamp-verified false verified = refl
clamp-verified false unverified = refl
clamp-verified false unknown = refl

all-verified :
    (asset_status : Text → Verdict) (owner : Bool) (accepts : List Accept)
    → all (λ w. is_verified (some w)) (accepts_verdicts asset_status owner accepts)
      ≡ all (λ a. owner && pays_verified asset_status a) accepts
unfolding accepts_verdicts pays_verified
all-verified asset_status owner [] = refl
all-verified asset_status owner (a ∷ rest) =
    ap₂ ◌&&◌ (clamp-verified owner (verdict_of_asset asset_status a.asset))
      (all-verified asset_status owner rest)

some-verdicts :
    (asset_status : Text → Verdict) (owner : Bool) (accepts : List Accept)
    → has_some (accepts_verdicts asset_status owner accepts) ≡ has_some accepts
unfolding accepts_verdicts
some-verdicts asset_status owner [] = refl
some-verdicts asset_status owner (a ∷ rest) = refl

-- An annotated listing reads verified exactly if it has a payment option, and for every one of them
-- its owner is verified and its asset named and verified.
pub annotate_trust-verified :
    (asset_status : Text → Verdict) (is_owner_verified is_ever_verified : Text → Bool)
    (item : Listing)
    → is_verified (
        verification_of (annotate_trust asset_status is_owner_verified is_ever_verified item).trust)
      ≡ (has_some item.resource.accepts
          && all
              (λ a. is_owner_verified item.resource.resource && pays_verified asset_status a)
              item.resource.accepts)
unfolding annotate_trust
annotate_trust-verified asset_status is_owner_verified is_ever_verified item =
    let owner = is_owner_verified item.resource.resource in
    strict_min-verified (accepts_verdicts asset_status owner item.resource.accepts)
    ∙ ap₂ ◌&&◌ (some-verdicts asset_status owner item.resource.accepts)
        (all-verified asset_status owner item.resource.accepts)

-- ===== src/Payability/Pruned.antt =====
-- src/payability.ts: what payable_only leaves of a page that was annotated.
use vellar_facilitator.Base.{
  ℕ, ◌≡◌, refl, ap, ap₂, Bool, not, Option, some, List, [], ◌∷◌, filter, arith,
}
use vellar_facilitator.Base.Table.{Text}
use vellar_facilitator.Catalog.State.{Accept}
use vellar_facilitator.Payability.{Verdict}
use vellar_facilitator.Payability.Page.{
  verdict_of, annotate_payability, is_not_payable, kept_accepts, kept_verdicts, prune_item,
  has_accepts, filter_payable_only,
}
use vellar_facilitator.Trust.Annotate.{Listing, carried}
use mathlib.Core.List.{map}

module _ (remaining : ℕ) (check : Text → Text → Option Verdict) where
  -- An option that is not known to be unpayable.
  abbrev pub may_be_paid : Accept → Bool
  may_be_paid a = not (is_not_payable (some (verdict_of remaining check a)))

  abbrev pub verdicts : List Accept → List (Option Verdict)
  verdicts accepts = map (λ a. some (verdict_of remaining check a)) accepts

  pub kept-accepts :
      (accepts : List Accept) → kept_accepts accepts (verdicts accepts) ≡ filter may_be_paid accepts
  unfolding kept_accepts
  kept-accepts [] = refl
  kept-accepts (a ∷ rest) = ground (arith, kept-accepts rest)

  kept-verdicts :
      (accepts : List Accept)
      → kept_verdicts accepts (verdicts accepts) ≡ verdicts (filter may_be_paid accepts)
  unfolding kept_verdicts
  kept-verdicts [] = refl
  kept-verdicts (a ∷ rest) = ground (arith, kept-verdicts rest)

  -- The listing without the options that cannot be paid.
  abbrev pub payable_part : Listing → Listing
  payable_part item = record item {
    resource = record item.resource { accepts = filter may_be_paid item.resource.accepts };
  }

  abbrev annotated_with : Listing → List Accept → List (Option Verdict) → Listing
  annotated_with item accepts payability = record {
    resource = record item.resource { accepts = accepts };
    trust = some (record (carried item.trust) { accepts_payability = some payability });
  }

  prune-annotated :
      (item : Listing)
      → prune_item
          (annotate_payability remaining check item)
          (annotate_payability remaining check item).trust
        ≡ annotate_payability remaining check (payable_part item)
  unfolding annotate_payability
  prune-annotated item =
      ap₂ (annotated_with item) (kept-accepts item.resource.accepts)
        (kept-verdicts item.resource.accepts)

  prune-page :
      (items : List Listing)
      → map (λ i. prune_item i i.trust) (map (annotate_payability remaining check) items)
        ≡ map (λ i. annotate_payability remaining check (payable_part i)) items
  prune-page [] = refl
  prune-page (i ∷ items) = ap₂ ◌∷◌ (prune-annotated i) (prune-page items)

  -- To prune an annotated page is to drop from each listing the options whose verdict is "not payable",
  -- to annotate what is left, so that every verdict stands at the index of its option, and to drop the
  -- listings that have no option left. Payable and unknown options stay.
  pub filter_payable_only-annotated :
      (items : List Listing)
      → filter_payable_only (map (annotate_payability remaining check) items)
        ≡ filter has_accepts (map (λ i. annotate_payability remaining check (payable_part i)) items)
  unfolding filter_payable_only
  filter_payable_only-annotated items = ap (filter has_accepts) (prune-page items)

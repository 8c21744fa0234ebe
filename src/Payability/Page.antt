-- ===== src/Payability/Page.antt =====
-- src/payability.ts: annotatePayability and filterPayableOnly. What `check` gives within the budget,
-- unknown beyond it, is a function of the pair.
use vellar_facilitator.Base.{
  ℕ, zero, suc, Bool, true, false, Option, none, some, List, [], ◌∷◌, ltb, length, filter,
  if◌then◌else◌,
}
use vellar_facilitator.Base.Table.{Text}
use vellar_facilitator.Catalog.State.{Accept}
use vellar_facilitator.Payability.{Verdict, payable, not_payable, unknown}
use vellar_facilitator.Trust.Annotate.{Listing, TrustBlock, carried}
use mathlib.Core.List.{map}

-- checkWithinBudget: with no time left nothing is asked; `lookup` is what came in before the deadline.
unfoldable pub check_within_budget : ℕ → Option Verdict → Verdict
check_within_budget zero lookup = unknown
check_within_budget (suc remaining) none = unknown
check_within_budget (suc remaining) (some v) = v

-- The verdict of an option; one without a payTo is not asked for.
unfoldable pub verdict_of_option : ℕ → (Text → Text → Option Verdict) → Text → Text → Verdict
verdict_of_option remaining check [] asset = unknown
verdict_of_option remaining check (c ∷ cs) asset =
    check_within_budget remaining (check (c ∷ cs) asset)

abbrev pub verdict_of : ℕ → (Text → Text → Option Verdict) → Accept → Verdict
verdict_of remaining check a = verdict_of_option remaining check a.pay_to a.asset

unfoldable pub annotate_payability : ℕ → (Text → Text → Option Verdict) → Listing → Listing
annotate_payability remaining check item = record item {
  trust = some (record (carried item.trust) {
    accepts_payability =
        some (map (λ a. some (verdict_of remaining check a)) item.resource.accepts);
  });
}

abbrev pub is_not_payable : Option Verdict → Bool
is_not_payable none = false
is_not_payable (some payable) = false
is_not_payable (some not_payable) = true
is_not_payable (some unknown) = false

-- The kept options, of the options and their verdicts by index; a missing verdict keeps its option.
unfoldable pub kept_accepts : List Accept → List (Option Verdict) → List Accept
kept_accepts [] vs = []
kept_accepts (a ∷ rest) [] = a ∷ kept_accepts rest []
kept_accepts (a ∷ rest) (v ∷ vs) =
    let more = kept_accepts rest vs in if is_not_payable v then more else a ∷ more

-- Their verdicts.
unfoldable pub kept_verdicts : List Accept → List (Option Verdict) → List (Option Verdict)
kept_verdicts [] vs = []
kept_verdicts (a ∷ rest) [] = none ∷ kept_verdicts rest []
kept_verdicts (a ∷ rest) (v ∷ vs) =
    let more = kept_verdicts rest vs in if is_not_payable v then more else v ∷ more

abbrev pub prune_by : Listing → TrustBlock → Option (List (Option Verdict)) → Listing
prune_by item t none = item
prune_by item t (some verdicts) = record {
  resource = record item.resource { accepts = kept_accepts item.resource.accepts verdicts };
  trust =
      some (record t { accepts_payability = some (kept_verdicts item.resource.accepts verdicts) });
}

abbrev pub prune_item : Listing → Option TrustBlock → Listing
prune_item item none = item
prune_item item (some t) = prune_by item t t.accepts_payability

abbrev pub has_accepts : Listing → Bool
has_accepts item = ltb 0 (length item.resource.accepts)

unfoldable pub filter_payable_only : List Listing → List Listing
filter_payable_only items = filter has_accepts (map (λ i. prune_item i i.trust) items)

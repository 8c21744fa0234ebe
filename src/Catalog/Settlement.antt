-- ===== src/Catalog/Settlement.antt =====
-- src/catalog.ts: recordSettlement.
use vellar_facilitator.Base.{
  ℕ, ◌+◌, Bool, true, false, not, ◌&&◌, Option, none, some, List, [], ◌∷◌, ◌++◌, ltb, length,
  if◌then◌else◌, ◌==◌,
}
use vellar_facilitator.Base.Table.{Text, member}
use vellar_facilitator.Catalog.State.{
  Env, SettlementStats, StoredEntry, Catalog, key_of, entry_at, set_entry, max_tracked_payers,
}

-- The payers after a settlement; an absent payer and an empty one do not count.
unfoldable pub track_payer : Option Text → List Text → List Text
track_payer none payers = payers
track_payer (some payer) payers =
    if not (length payer == 0)
      && ltb (length payers) max_tracked_payers
      && not (member payer payers)
    then payers ++ payer ∷ []
    else payers

unfoldable pub count_settlement : ℕ → Option Text → SettlementStats → SettlementStats
count_settlement now payer stats = record {
  settlements = stats.settlements + 1;
  observed = stats.observed + 1;
  payers = track_payer payer stats.payers;
  last_settled = some now;
}

-- `settledPayTo && boundPayTo.includes(settledPayTo)`.
unfoldable pub is_bound_owner : StoredEntry → Text → Bool
is_bound_owner entry pay_to = not (length pay_to == 0) && member pay_to entry.bound_pay_to

unfoldable pub record_found :
    ℕ → Option Text → Text → Option Text → Option StoredEntry → Catalog → Catalog × Bool
record_found now payer settled_pay_to none found c = (c, false)
record_found now payer settled_pay_to (some key) none c = (c, false)
record_found now payer settled_pay_to (some key) (some entry) c =
    if is_bound_owner entry settled_pay_to
    then (set_entry key (record entry { stats = count_settlement now payer entry.stats }) c, true)
    else (c, false)

unfoldable pub record_settlement : Env → ℕ → Text → Option Text → Text → Catalog → Catalog × Bool
record_settlement env now resource_url payer settled_pay_to c =
    let key = key_of env resource_url none in
    record_found now payer settled_pay_to key (entry_at c key) c

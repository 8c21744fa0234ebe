-- ===== src/Catalog/Capacity/Tests.antt =====
-- The cap of the catalog at concrete inputs.
use vellar_facilitator.Catalog.Upsert.{insert_by_age}
use vellar_facilitator.Catalog.Upsert.{by_age}
use vellar_facilitator.Catalog.Upsert.{drop_oldest}
use vellar_facilitator.Base.{◌≤◌, refl, List, [], ◌∷◌, arith}
use vellar_facilitator.Base.Text.{codes, same_text}
use vellar_facilitator.Base.Table.{Text}
use vellar_facilitator.Catalog.State.{StoredEntry}
use vellar_facilitator.Catalog.Upsert.{evict_to}
use vellar_facilitator.Catalog.Events.{run}
use vellar_facilitator.Catalog.Capacity.{times, IsCapped}
use vellar_facilitator.Catalog.Capacity.Histories.{run-IsCapped}
use vellar_facilitator.Catalog.Capacity.Oldest.{evict_to-oldest}
use vellar_facilitator.Catalog.Tests.{env, listed, takeover, entry, resource}

listed-IsCapped : IsCapped listed
unfolding times
listed-IsCapped = (λ k. ground arith, omega arith)

run-IsCapped_example : IsCapped (run env takeover listed)
run-IsCapped_example = run-IsCapped env takeover listed listed-IsCapped

abbrev newer : StoredEntry
newer = record entry { resource = record resource { last_updated = 2 } }

abbrev two : List (Text × StoredEntry)
two = (codes "n", newer) ∷ (codes "o", entry) ∷ []

two_once : (k : Text) → times k two ≤ 1
unfolding times same_text
two_once [] = omega arith
two_once (c ∷ []) = ground arith
two_once (c ∷ d ∷ k) = ground arith

evict_to-oldest_example : entry.resource.last_updated ≤ newer.resource.last_updated
unfolding same_text evict_to drop_oldest by_age insert_by_age
evict_to-oldest_example =
    evict_to-oldest 1 two (codes "o") (codes "n") entry newer two_once refl refl refl

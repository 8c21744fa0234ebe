-- ===== src/Catalog/Hook/Tests.antt =====
-- The theorems on src/bazaar.ts's hook at concrete settlements: of the shop, which is bound to GA, by a
-- payment to GB.
use vellar_facilitator.Catalog.Settlement.{is_bound_owner}
use vellar_facilitator.Catalog.Key.Path.{normalize_path}
use vellar_facilitator.Catalog.Settlement.{record_found}
use vellar_facilitator.Catalog.Settlement.{record_settlement}
use vellar_facilitator.Catalog.State.{entry_at}
use vellar_facilitator.Base.Text.{includes}
use vellar_facilitator.Base.Text.{same_text}
use vellar_facilitator.Catalog.State.{tool_name_of}
use vellar_facilitator.Catalog.Key.{canonical_resource_key}
use vellar_facilitator.Catalog.State.{key_of}
use vellar_facilitator.Catalog.Displace.{claim_of}
use vellar_facilitator.Catalog.Displace.{
  begin_displace, begin_probe, may_probe, object_bound_pay_to, has_live_rotation_auth, claim_probe,
}
use vellar_facilitator.Catalog.State.{Catalog, is_templated_key, frozen_on_ownership}
use vellar_facilitator.Catalog.Verify.{cooling_down, begin_reverify, reverify_found, may_reverify}
use vellar_facilitator.Catalog.Hook.{start_displacement}
use vellar_facilitator.Base.{◌≢◌, false, ◌≡◌, refl, true, none, some, [], ◌∷◌}
use vellar_facilitator.Catalog.Upsert.{rejected, unbound_payto}
use vellar_facilitator.Catalog.Refusal.{unbound}
use vellar_facilitator.Catalog.Hook.{Payment, follow_up, on_after_settle}
use vellar_facilitator.Catalog.Hook.Effects.{IsRefused, follow_up-one_probe, foreign_hook-IsRefused}
use vellar_facilitator.Catalog.Tests.{
  env, shop, ga, gb, discovered, pays, listed, claim, entry, discovered_key, payee, found_entry,
  unbound_gb, others,
}

abbrev payment : Payment
payment = record {
  success = true;
  requirements = pays gb;
  payer = some ga;
  discovered = some discovered;
}

begins_claim :
    (follow_up env 7 discovered payment (listed, rejected unbound_payto)).claim ≡ some claim
unfolding follow_up begin_displace claim_of key_of canonical_resource_key tool_name_of same_text
    includes entry_at record_settlement record_found normalize_path is_bound_owner
begins_claim = refl

follow_up-one_probe_example :
    (follow_up env 7 discovered payment (listed, rejected unbound_payto)).probe ≡ none
unfolding tool_name_of same_text
follow_up-one_probe_example =
    follow_up-one_probe env 7 discovered payment (listed, rejected unbound_payto) claim refl
      begins_claim

foreign_hook-IsRefused_example :
    IsRefused payment listed (on_after_settle env 5 7 payment true [] listed)
foreign_hook-IsRefused_example =
    foreign_hook-IsRefused env 5 7 payment true listed discovered shop gb refl refl discovered_key
      payee (unbound entry found_entry unbound_gb) others

-- The same catalog with no store.
abbrev unstored : Catalog
unstored = record listed { has_store = false }

-- Without a store the probe for GB is begun at once, and noted.
begins_probe :
    ((follow_up env 7 discovered payment (unstored, rejected unbound_payto)).displacing
      ≡ some (record { key = shop; pay_tos = gb ∷ [] }))
    × ((follow_up env 7 discovered payment (unstored, rejected unbound_payto)).catalog ≢ unstored)
unfolding follow_up begin_displace claim_of key_of canonical_resource_key tool_name_of same_text
    includes entry_at record_settlement record_found normalize_path is_bound_owner
    start_displacement begin_probe may_probe object_bound_pay_to is_templated_key
    frozen_on_ownership cooling_down has_live_rotation_auth claim_probe begin_reverify
    reverify_found may_reverify
begins_probe = (refl, λ e. cc)

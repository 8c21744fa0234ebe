-- ===== src/Catalog/Hook/Effects.antt =====
-- src/bazaar.ts: the hook for a payTo that is not bound, and which probes it begins.
use vellar_facilitator.Base.{
  ℕ, ◌≡◌, refl, sym, ◌∙◌, ap, Bool, true, false, Option, none, some, [], ◌∷◌, arith, if_cases,
  subst, if◌then◌else◌,
}
use vellar_facilitator.Base.Table.{Text, member}
use vellar_facilitator.Catalog.State.{
  Env, DiscoveredResource, StoredEntry, Catalog, key_of, entry_at, tool_name_of,
}
use vellar_facilitator.Catalog.Key.{canonical_pay_to}
use vellar_facilitator.Catalog.Settlement.{record_settlement, is_bound_owner}
use vellar_facilitator.Catalog.Upsert.{CatalogOutcomeReason, Begun, rejected, resume}
use vellar_facilitator.Catalog.Verify.{Probe, begin_reverify, reverify_found, may_reverify}
use vellar_facilitator.Catalog.Displace.{
  Claim, begin_displace, claim_of, begin_probe, claim_probe, may_probe,
}
use vellar_facilitator.Catalog.Events.{run}
use vellar_facilitator.Catalog.Refusal.{
  IsForeign, foreign_upsert_refused, foreign_settlement_refused,
}
use vellar_facilitator.Catalog.Hook.{
  Payment, Hooked, start_displacement, paid_to, unreported, reported, follow_up, hook_discovered,
  on_after_settle,
}

foreign_reverify :
    (env : Env) (now : ℕ) (url pay_to : Text) (c : Catalog)
    → ((entry : StoredEntry)
        → entry_at c (key_of env url none) ≡ some entry
        → member pay_to entry.bound_pay_to ≡ false)
    → begin_reverify env now url pay_to c ≡ (c, none)
unfolding begin_reverify reverify_found may_reverify is_bound_owner
foreign_reverify env now url pay_to c foreign =
    go (key_of env url none) (entry_at c (key_of env url none)) foreign
  where
    go :
        (key : Option Text) (found : Option StoredEntry)
        → ((entry : StoredEntry) → found ≡ some entry → member pay_to entry.bound_pay_to ≡ false)
        → reverify_found env now pay_to key found c ≡ (c, none)
    go none found f = refl
    go (some key) none f = refl
    go (some key) (some entry) f = ground (arith, f entry refl)

claimed-unbound :
    (claimant : Text) (key : Option Text) (found : Option StoredEntry) (claim : Claim)
    → claim_of claimant key found ≡ some claim
    → (entry : StoredEntry) → found ≡ some entry
    → member claimant entry.bound_pay_to ≡ false
unfolding claim_of
claimed-unbound claimant none found claim e entry h = cc
claimed-unbound claimant (some key) none claim e entry h = cc
claimed-unbound claimant (some key) (some known) claim e entry h = ground (arith, e, h)

claimed-claimant :
    (claimant : Text) (key : Option Text) (found : Option StoredEntry) (claim : Claim)
    → claim_of claimant key found ≡ some claim
    → claim.claimant ≡ claimant
unfolding claim_of
claimed-claimant claimant none found claim e = cc
claimed-claimant claimant (some key) none claim e = cc
claimed-claimant claimant (some key) (some known) claim e = ground (arith, e)

-- What is begun at once of a displacement: at most the probe for the claimant, noted as in flight.
record IsStarted (claim : Option Claim) (c : Catalog) (out : Catalog × Option Probe) : Type 0 where
  but_in_flight : record out.0 { displace_in_flight = c.displace_in_flight } ≡ c
  asked : (probe : Probe) → out.1 ≡ some probe → c.has_store ≡ false
  claimed :
      (probe : Probe)
      → out.1 ≡ some probe
      → (began : Claim) × (claim ≡ some began) × (probe.pay_tos ≡ began.claimant ∷ [])

nothing-IsStarted : (claim : Option Claim) (c : Catalog) → IsStarted claim c (c, none)
nothing-IsStarted claim c = record {
  but_in_flight = refl;
  asked = λ probe e. cc;
  claimed = λ probe e. cc;
}

start_displacement-IsStarted :
    (env : Env) (now : ℕ) (claim : Option Claim) (c : Catalog)
    → IsStarted claim c (start_displacement env now claim c)
unfolding start_displacement begin_probe claim_probe
start_displacement-IsStarted env now none c = nothing-IsStarted none c
start_displacement-IsStarted env now (some claim) c =
    if_cases (λ out. IsStarted (some claim) c out) c.has_store
      (λ store. nothing-IsStarted (some claim) c)
      (λ no_store.
        if_cases (λ out. IsStarted (some claim) c out) (may_probe env now claim none c)
          (λ may. record {
            but_in_flight = refl;
            asked = λ probe e. no_store;
            claimed = λ probe e. (claim, refl, cc);
          })
          (λ may_not. nothing-IsStarted (some claim) c))

started-entry_at :
    (claim : Option Claim) (c : Catalog) (out : Catalog × Option Probe) (key : Option Text)
    → IsStarted claim c out
    → entry_at out.0 key ≡ entry_at c key
unfolding entry_at
started-entry_at claim c out key s = ap (λ d. entry_at d key) s.but_in_flight

-- For a resource that is no MCP tool, the hook never starts both: where it begins the displacement of an
-- owner by the payTo, it begins no verification of the binding.
pub follow_up-one_probe :
    (env : Env) (now : ℕ) (d : DiscoveredResource) (p : Payment) (out : Catalog × Begun)
    (claim : Claim)
    → tool_name_of d ≡ none
    → (follow_up env now d p out).claim ≡ some claim
    → (follow_up env now d p out).probe ≡ none
unfolding follow_up begin_displace
follow_up-one_probe env now d p (c, outcome) claim plain e =
    let counted = (record_settlement env now d.resource_url p.payer (paid_to p) c).0 in
    let begun = begin_displace env d.resource_url (paid_to p) d counted in
    let started = start_displacement env now begun counted in
    let key = key_of env d.resource_url none in
    let unbound = claimed-unbound (paid_to p) key (entry_at counted key) claim (
      ap
        (λ t.
          claim_of (paid_to p) (key_of env d.resource_url t)
            (entry_at counted (key_of env d.resource_url t)))
        (sym plain)
      ∙ e) in
    let same =
      started-entry_at begun counted started key
        (start_displacement-IsStarted env now begun counted) in
    ap (λ o. o.1)
      (foreign_reverify env now d.resource_url (paid_to p) started.0
        (λ entry f. unbound entry (sym same ∙ f)))

-- What the hook leaves of a refused settlement: the catalog as it was but for the notes of the
-- displacements that are in flight, a refusal with a reason, no verification, and at most a probe for
-- the payer's payTo alone, begun at once only where there is no store.
pub record IsRefused (p : Payment) (c : Catalog) (out : Hooked) : Type 0 where
  pub but_in_flight : record out.catalog { displace_in_flight = c.displace_in_flight } ≡ c
  pub reason : CatalogOutcomeReason
  pub answer : out.outcome ≡ reported (rejected reason)
  pub no_verification : out.probe ≡ none
  pub displacement :
      (probe : Probe)
      → out.displacing ≡ some probe
      → (c.has_store ≡ false) × (probe.pay_tos ≡ paid_to p ∷ [])

follow_up-IsRefused :
    (env : Env) (now : ℕ) (d : DiscoveredResource) (p : Payment) (c : Catalog)
    (reason : CatalogOutcomeReason)
    → ((entry : StoredEntry)
        → entry_at c (key_of env d.resource_url none) ≡ some entry
        → member (paid_to p) entry.bound_pay_to ≡ false)
    → IsRefused p c (follow_up env now d p (c, rejected reason))
unfolding follow_up begin_displace
follow_up-IsRefused env now d p c reason unbound =
    let url = d.resource_url in
    let counted = foreign_settlement_refused env now url p.payer (paid_to p) c unbound in
    let key = key_of env url (tool_name_of d) in
    let begun = claim_of (paid_to p) key (entry_at c key) in
    let started = start_displacement env now begun c in
    let s = start_displacement-IsStarted env now begun c in
    let same = started-entry_at begun c started (key_of env url none) s in
    let verified =
      foreign_reverify env now url (paid_to p) started.0
        (λ entry f. unbound entry (sym same ∙ f)) in
    rw counted (record {
      but_in_flight =
          ap (λ o. record o.0 { displace_in_flight = c.displace_in_flight }) verified
          ∙ s.but_in_flight;
      reason = reason;
      answer = refl;
      no_verification = ap (λ o. o.1) verified;
      displacement = λ probe e.
          let (began, is_begun, names) = s.claimed probe e in
          (
            s.asked probe e,
            names
                ∙ ap (λ t. t ∷ [])
                    (claimed-claimant (paid_to p) key (entry_at c key) began is_begun),
          );
    })

-- A settlement with a payTo that is foreign to the key of the discovered resource, and not bound by the
-- entry at its bare URL, is reported as rejected, with a reason, if nothing comes in between. The hook
-- leaves the catalog as it was, but that with no store the displacement which it attempts may be noted
-- as in flight; it begins no verification, and a probe that the attempt begins at once asks for that
-- payTo alone.
pub foreign_hook-IsRefused :
    (env : Env) (now later : ℕ) (p : Payment) (written : Bool) (c : Catalog)
    (d : DiscoveredResource) (key pay_to : Text)
    → p.success ≡ true
    → p.discovered ≡ some d
    → key_of env d.resource_url (tool_name_of d) ≡ some key
    → canonical_pay_to p.requirements.pay_to ≡ some pay_to
    → IsForeign c key pay_to
    → ((entry : StoredEntry)
        → entry_at c (key_of env d.resource_url none) ≡ some entry
        → member (paid_to p) entry.bound_pay_to ≡ false)
    → IsRefused p c (on_after_settle env now later p written [] c)
unfolding on_after_settle run
foreign_hook-IsRefused env now later p written c d key pay_to ok found named paid foreign unbound =
    let (reason, refused) =
      foreign_upsert_refused env now d p.requirements c key pay_to named paid foreign in
    let hook = λ (f : Option DiscoveredResource). hook_discovered env now later p written [] f c in
    let idle : Hooked = record {
      catalog = c;
      outcome = unreported;
      claim = none;
      displacing = none;
      probe = none;
    } in
    let runs : on_after_settle env now later p written [] c ≡ hook (some d) =
      ap (λ b. if b then hook p.discovered else idle) ok ∙ ap hook found in
    let follows : hook (some d) ≡ follow_up env later d p (c, rejected reason) =
      ap (λ o. follow_up env later d p (resume env written o)) refused in
    subst (λ h. IsRefused p c h) (sym (runs ∙ follows))
      (follow_up-IsRefused env later d p c reason unbound)

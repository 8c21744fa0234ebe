-- ===== src/Catalog/Frame.antt =====
-- src/catalog.ts: what upsertFromPayment does to the ownership table and the latch, for any relation
-- between states that a first binding respects.
use vellar_facilitator.Base.{
  ℕ, ◌≡◌, refl, Bool, true, false, Option, none, some, List, [], ◌∷◌, if_cases, length, leb,
}
use vellar_facilitator.Base.Table.{Text, find, put, is_some}
use vellar_facilitator.Catalog.Key.{canonical_pay_to}
use vellar_facilitator.Catalog.State.{
  Env, PaymentRequirements, DiscoveredResource, DiscoveryResource, StoredEntry, Catalog, key_of,
  frozen_on_ownership, tool_name_of, max_tombstones,
}
use vellar_facilitator.Catalog.Upsert.{
  CatalogOutcomeReason, invalid_tool_name, unroutable_resource_url, invalid_payto,
  schema_validation_failed, binding_refused, Pending, write_first, write_update, no_stats,
  binding_or, Begun, rejected, cataloged, binding, commit_binding, begin_binding, store_resource,
  ownership_guard, refuse_or, upsert_with_pay_to, upsert_routable, is_routable, upsert_at,
  build_resource, add_accept, accepts_of, resume, begin_upsert, finish_upsert, upsert_from_payment,
}
use vellar_facilitator.Catalog.Untouched.{
  Remembers, Remembers-refl, Remembers-trans, Remembers-of_Untouched, Untouched,
  write_entry-Untouched, put_owner-Remembers,
}

-- A relation between states that whatever leaves both fields respects, and the first binding of a key.
pub record Frame (R : Catalog → Catalog → Type 0) : Type 0 where
  pub reflexive : (c : Catalog) → R c c
  pub transitive : {c d e : Catalog} → R c d → R d e → R c e
  pub of_Untouched : {c d : Catalog} → Untouched c d → R c d
  pub of_first_binding :
      (key : Text) (bound : List Text) (c : Catalog)
      → is_some (find key c.ownership) ≡ false
      → R c (record c { ownership = put key bound c.ownership })

module _ (env : Env) (p : Pending) where
  write_first-Untouched : (c : Catalog) → Untouched c (write_first env p c)
  unfolding write_first
  write_first-Untouched c =
      write_entry-Untouched env p.key p.resource no_stats false
        (binding_or p.pay_to (find p.key c.ownership)) false c

  -- A binding that is written, as a change of the table and one of the entries.
  pub commit_binding-Untouched :
      (c : Catalog)
      → Untouched
          (record c { ownership = put p.key (p.pay_to ∷ []) c.ownership })
          (commit_binding env p c)
  unfolding commit_binding
  commit_binding-Untouched c =
      write_first-Untouched (record c { ownership = put p.key (p.pay_to ∷ []) c.ownership })

-- A binding that waits to be written is the first of its key.
abbrev IsFresh : Catalog → Begun → Type 0
IsFresh c (rejected reason) = Unit {0}
IsFresh c (cataloged first) = Unit {0}
IsFresh c (binding p) = is_some (find p.key c.ownership) ≡ false

module _ (R : Catalog → Catalog → Type 0) (frame : Frame R) (env : Env) where
  -- The outcome of a part of the method.
  record Kept (c : Catalog) (out : Catalog × Begun) : Type 0 where
    related : R c out.0
    fresh : IsFresh out.0 out.1

  Kept-rejected : (c : Catalog) (reason : CatalogOutcomeReason) → Kept c (c, rejected reason)
  Kept-rejected c reason = record { related = frame.reflexive c; fresh = tt }

  Kept-cataloged : {c : Catalog} (first : Bool) (d : Catalog) → R c d → Kept c (d, cataloged first)
  Kept-cataloged first d r = record { related = r; fresh = tt }

  fresh_commit :
      (p : Pending) (c : Catalog)
      → is_some (find p.key c.ownership) ≡ false
      → R c (commit_binding env p c)
  fresh_commit p c h =
      frame.transitive (frame.of_first_binding p.key (p.pay_to ∷ []) c h)
        (frame.of_Untouched (commit_binding-Untouched env p c))

  begin_binding-Kept : (p : Pending) (c : Catalog) → Kept c (begin_binding env p c)
  unfolding begin_binding
  begin_binding-Kept p c =
      if_cases (Kept c) (frozen_on_ownership c.frozen) (λ h. Kept-rejected c binding_refused)
        (λ h.
          if_cases (Kept c) (is_some (find p.key c.ownership))
            (λ i.
              Kept-cataloged true (write_first env p c)
                (frame.of_Untouched (write_first-Untouched env p c)))
            (λ i.
              if_cases (Kept c) (leb max_tombstones (length c.ownership))
                (λ j. record {
                  related =
                      frame.of_Untouched (record { same_ownership = refl; same_latch = refl });
                  fresh = tt;
                })
                (λ j.
                  if_cases (Kept c) c.has_store
                    (λ k. record { related = frame.reflexive c; fresh = i })
                    (λ k. Kept-cataloged true (commit_binding env p c) (fresh_commit p c i)))))

  module _ (now : ℕ) (discovered : DiscoveredResource) (r : PaymentRequirements) where
    store_resource-Kept :
        (key pay_to : Text) (existing : Option StoredEntry) (resource : Option DiscoveryResource)
        (c : Catalog)
        → Kept c (store_resource env key pay_to existing resource c)
    unfolding store_resource write_update
    store_resource-Kept key pay_to existing none c = Kept-rejected c schema_validation_failed
    store_resource-Kept key pay_to none (some resource) c =
        begin_binding-Kept (record { key = key; pay_to = pay_to; resource = resource }) c
    store_resource-Kept key pay_to (some e) (some resource) c =
        Kept-cataloged false (write_update env key resource e c) (
          frame.of_Untouched (
            write_entry-Untouched env key resource e.stats e.restored e.bound_pay_to
              e.verified_owner c))

    refuse_or-Kept :
        (reason : Option CatalogOutcomeReason) (c : Catalog) (out : Catalog × Begun)
        → Kept c out
        → Kept c (refuse_or reason c out)
    refuse_or-Kept none c out kept = kept
    refuse_or-Kept (some why) c out kept = Kept-rejected c why

    upsert_with_pay_to-Kept :
        (key pay_to : Text) (c : Catalog)
        → Kept c (upsert_with_pay_to env now discovered r key pay_to c)
    unfolding upsert_with_pay_to
    upsert_with_pay_to-Kept key pay_to c =
        let existing = find key c.entries in
        let resource =
          build_resource env now discovered
            (add_accept (record r { pay_to = some pay_to }) (accepts_of existing)) in
        refuse_or-Kept (ownership_guard pay_to existing (find key c.ownership)) c
          (store_resource env key pay_to existing resource c)
          (store_resource-Kept key pay_to existing resource c)

    upsert_routable-Kept :
        (key : Text) (pay_to : Option Text) (c : Catalog)
        → Kept c (upsert_routable env now discovered r key pay_to c)
    upsert_routable-Kept key none c = Kept-rejected c invalid_payto
    upsert_routable-Kept key (some pay_to) c = upsert_with_pay_to-Kept key pay_to c

    upsert_at-Kept :
        (key : Option Text) (c : Catalog) → Kept c (upsert_at env now discovered r key c)
    unfolding upsert_at
    upsert_at-Kept none c = Kept-rejected c invalid_tool_name
    upsert_at-Kept (some key) c =
        if_cases (Kept c) (is_routable env discovered r)
          (λ h. upsert_routable-Kept key (canonical_pay_to r.pay_to) c)
          (λ h. Kept-rejected c unroutable_resource_url)

    begin_upsert-Kept : (c : Catalog) → Kept c (begin_upsert env now discovered r c)
    unfolding begin_upsert
    begin_upsert-Kept c =
        upsert_at-Kept (key_of env discovered.resource_url (tool_name_of discovered)) c

    pub begin_upsert-related : (c : Catalog) → R c (begin_upsert env now discovered r c).0
    begin_upsert-related c = (begin_upsert-Kept c).related

    pub upsert_from_payment-related :
        (written : Bool) (c : Catalog) → R c (upsert_from_payment env now discovered r written c).0
    unfolding upsert_from_payment finish_upsert
    upsert_from_payment-related written c =
        resumed written (begin_upsert env now discovered r c) (begin_upsert-Kept c)
      where
        resumed : (w : Bool) (out : Catalog × Begun) → Kept c out → R c (resume env w out).0
        resumed w (d, rejected reason) kept = kept.related
        resumed w (d, cataloged first) kept = kept.related
        resumed true (d, binding p) kept =
            frame.transitive kept.related (fresh_commit p d kept.fresh)
        resumed false (d, binding p) kept = kept.related

pub Frame-Remembers : Frame Remembers
Frame-Remembers = record {
  reflexive = Remembers-refl;
  transitive = Remembers-trans;
  of_Untouched = Remembers-of_Untouched;
  of_first_binding = λ key bound c h. put_owner-Remembers key bound c;
}

pub finish_upsert-Remembers :
    (env : Env) (p : Pending) (written : Bool) (c : Catalog)
    → Remembers c (finish_upsert env p written c).0
unfolding finish_upsert
finish_upsert-Remembers env p true c =
    Remembers-trans (put_owner-Remembers p.key (p.pay_to ∷ []) c)
      (Remembers-of_Untouched (commit_binding-Untouched env p c))
finish_upsert-Remembers env p false c = Remembers-refl c

-- ===== src/Catalog/Owner.antt =====
-- src/catalog.ts: what moves a binding.
use vellar_facilitator.Base.{
  ℕ, ◌≡◌, ◌⊎◌, Bool, true, false, Option, some, List, [], ◌∷◌, arith, ap, ◌∙◌,
}
use vellar_facilitator.Base.Table.{Text, member, find, find-put, drop_key, alter}
use vellar_facilitator.Base.Text.{same_text_iff}
use vellar_facilitator.Ownership.{OwnershipVerdict, matched}
use vellar_facilitator.Catalog.State.{Env, PaymentRequirements, DiscoveredResource, Catalog}
use vellar_facilitator.Catalog.Verify.{Probe}
use vellar_facilitator.Catalog.Displace.{
  Claim, RotationAuthorization, has_live_rotation_auth, set_owner, rebind_object,
}
use vellar_facilitator.Catalog.Untouched.{Untouched}
use vellar_facilitator.Catalog.Frame.{Frame}

-- A key that is bound stays bound to the same addresses.
module _ (key : Text) (bound : List Text) where
  abbrev pub Holds : Catalog → Catalog → Type 0
  Holds c d = find key c.ownership ≡ some bound → find key d.ownership ≡ some bound

  pub Holds-of_Untouched : {c d : Catalog} → Untouched c d → Holds c d
  Holds-of_Untouched u h = ap (λ o. find key o) u.same_ownership ∙ h

  pub Frame-Holds : Frame Holds
  Frame-Holds = record {
    reflexive = λ c h. h;
    transitive = λ p q h. q (p h);
    of_Untouched = λ u. Holds-of_Untouched u;
    of_first_binding =
        λ k b c free h. ground (arith, h, free, find-put k key b c.ownership, same_text_iff k key);
  }

-- What a displacement establishes, and what it needed: a `match` for the claimant's address alone.
pub record IsDisplaced (now : ℕ) (claim : Claim) (rotation : Option RotationAuthorization)
    (verify : Probe → Option OwnershipVerdict) (written : Bool) (before after : Catalog)
    : Type 0 where
  pub proved : verify (record { key = claim.key; pay_tos = claim.claimant ∷ [] }) ≡ some matched
  pub durable : before.has_store ≡ true → written ≡ true
  pub permitted :
      (member claim.key before.ever_verified ≡ false) ⊎ (has_live_rotation_auth now rotation ≡ true)
  pub owner : find claim.key after.ownership ≡ some (claim.claimant ∷ [])
  pub latched : member claim.key after.ever_verified ≡ true

module _ (env : Env) (now : ℕ) (claim : Claim) (discovered : DiscoveredResource)
    (r : PaymentRequirements) (rotation : Option RotationAuthorization)
    (verify : Probe → Option OwnershipVerdict) where
  -- The state in which a written displacement catalogs the resource anew.
  abbrev emptied : Catalog → Catalog
  emptied c =
      let owned = set_owner claim.key claim.claimant c in
      record owned { entries = drop_key claim.key owned.entries }

  -- The state in which a rotation sets the owner.
  abbrev rebound : Catalog → Catalog
  rebound c = record c { entries = alter (rebind_object claim) c.entries }

  -- What a write of the claim establishes, where the catalog before the probe was `before`.
  module _ (written : Bool) (before noted : Catalog)
      (same_latch : noted.ever_verified ≡ before.ever_verified)
      (same_store : noted.has_store ≡ before.has_store) where
    abbrev answer : Option OwnershipVerdict
    answer = verify (record { key = claim.key; pay_tos = claim.claimant ∷ [] })

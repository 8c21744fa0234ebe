-- ===== src/Catalog/Displace.antt =====
-- src/catalog.ts: tryDisplace, split at what it awaits: the lookup of a rotation marker, the probe,
-- and the write to the store.
use vellar_facilitator.Base.{
  ℕ, Bool, true, false, not, ◌&&◌, ◌||◌, Option, none, some, List, [], ◌∷◌, ◌++◌, ltb, length,
  if◌then◌else◌, ◌==◌,
}
use vellar_facilitator.Base.Text.{same_text}
use vellar_facilitator.Base.Table.{
  Text, member, adjoin, discard, find, put, drop_key, alter, is_some,
}
use vellar_facilitator.Ownership.{OwnershipVerdict, matched, mismatch, unverifiable, timeout}
use vellar_facilitator.Catalog.State.{
  Env, PaymentRequirements, DiscoveredResource, StoredEntry, Catalog, frozen_on_ownership,
  is_templated_key, tool_name_of, key_of, entry_at, set_verified_owner,
}
use vellar_facilitator.Catalog.Verify.{Probe, cooling_down}
use vellar_facilitator.Catalog.Upsert.{upsert_from_payment}

pub record RotationAuthorization : Type 0 where
  pub resource_key : Text
  pub old_pay_to : Text
  pub new_pay_to : Text
  pub nonce : Text
  pub settled_at : ℕ
  pub expires_at : ℕ
  pub consumed_at : Option ℕ

unfoldable pub has_live_rotation_auth : ℕ → Option RotationAuthorization → Bool
has_live_rotation_auth now none = false
has_live_rotation_auth now (some r) = not (is_some r.consumed_at) && ltb now r.expires_at

-- What is captured before the first wait: the entry's object, and what it held.
pub record Claim : Type 0 where
  pub key : Text
  pub claimant : Text
  pub object : ℕ
  pub bound_pay_to : List Text
  pub owner_at_start : Option Text

abbrev pub head : List Text → Option Text
head [] = none
head (t ∷ ts) = some t

-- `ownerAtStart`, where an empty binding reads as the empty text.
abbrev pub text_or_empty : Option Text → Text
text_or_empty none = []
text_or_empty (some t) = t

unfoldable pub claim_of : Text → Option Text → Option StoredEntry → Option Claim
claim_of claimant none found = none
claim_of claimant (some key) none = none
claim_of claimant (some key) (some entry) =
    if length claimant == 0 || member claimant entry.bound_pay_to
    then none
    else some (record {
      key = key;
      claimant = claimant;
      object = entry.object;
      bound_pay_to = entry.bound_pay_to;
      owner_at_start = head entry.bound_pay_to;
    })

-- Up to the lookup of the marker for (key, owner at start, claimant); `none` is "skipped".
unfoldable pub begin_displace : Env → Text → Text → DiscoveredResource → Catalog → Option Claim
begin_displace env raw_url claimant discovered c =
    let key = key_of env raw_url (tool_name_of discovered) in claim_of claimant key (entry_at c key)

-- `${key}\u0000${claimant}`.
abbrev pub cooldown_key : Text → Text → Text
cooldown_key key claimant = key ++ 0 ∷ claimant

-- The binding of the captured object, which only a rotation that reaches it through the map changes.
unfoldable pub object_bound_pay_to : Claim → Option StoredEntry → List Text
object_bound_pay_to claim none = claim.bound_pay_to
object_bound_pay_to claim (some entry) =
    if entry.object == claim.object then entry.bound_pay_to else claim.bound_pay_to

unfoldable pub may_probe : Env → ℕ → Claim → Option RotationAuthorization → Catalog → Bool
may_probe env now claim rotation c =
    let slot = cooldown_key claim.key claim.claimant in
    (not (member claim.key c.ever_verified) || has_live_rotation_auth now rotation)
    && not (length (object_bound_pay_to claim (find claim.key c.entries)) == 0)
    && not (is_templated_key env claim.key)
    && not (frozen_on_ownership c.frozen)
    && not (member slot c.displace_in_flight)
    && not (cooling_down now (find slot c.displace_state))

-- `verify(key, [claimant])`: the claimant's address alone, and not the bound ones.
unfoldable pub claim_probe : Claim → Probe
claim_probe claim = record { key = claim.key; pay_tos = claim.claimant ∷ [] }

-- From the marker to the probe, if one is made.
unfoldable pub begin_probe :
    Env → ℕ → Claim → Option RotationAuthorization → Catalog → Catalog × Option Probe
begin_probe env now claim rotation c =
    if may_probe env now claim rotation c
    then (
      record c {
        displace_in_flight = adjoin (cooldown_key claim.key claim.claimant) c.displace_in_flight;
      },
      some (claim_probe claim),
    )
    else (c, none)

pub data Step : Type 0 where
  skipped refused displaced : Step
  rotating moving : Step

unfoldable pub current_owner : Option StoredEntry → Option Text
current_owner none = none
current_owner (some entry) = head entry.bound_pay_to

-- `currentEntry?.boundPayTo[0] === ownerAtStart`.
unfoldable pub still_old_owner : Claim → Catalog → Bool
still_old_owner claim c = elim (current_owner (find claim.key c.entries)) [
  | none ↦ false
  | some owner ↦ same_text owner (text_or_empty claim.owner_at_start)
]

-- Which write a proven claim makes: that of a rotation, or that of a displacement.
unfoldable pub proven : ℕ → Claim → Option RotationAuthorization → Catalog → Step
proven now claim rotation c =
    if not (member claim.key c.ever_verified)
    then moving
    else if not (has_live_rotation_auth now rotation) || not (still_old_owner claim c)
    then skipped
    else if c.has_store
    then rotating
    else refused

unfoldable pub judge : ℕ → Claim → Option RotationAuthorization → OwnershipVerdict → Catalog → Step
judge now claim rotation matched c = proven now claim rotation c
judge now claim rotation mismatch c = refused
judge now claim rotation unverifiable c = refused
judge now claim rotation timeout c = refused

unfoldable pub note_displace : Claim → OwnershipVerdict → ℕ → Catalog → Catalog
note_displace claim verdict now c =
    let slot = cooldown_key claim.key claim.claimant in
    record c {
      displace_in_flight = discard slot c.displace_in_flight;
      displace_state = put slot (verdict, now) c.displace_state;
    }

abbrev pub verdict_or : Option OwnershipVerdict → OwnershipVerdict
verdict_or none = unverifiable
verdict_or (some verdict) = verdict

-- From the probe's outcome, which is `none` where it throws, to the write.
unfoldable pub end_probe :
    ℕ → Claim → Option RotationAuthorization → Option OwnershipVerdict → Catalog → Catalog × Step
end_probe now claim rotation outcome c =
    let noted = note_displace claim (verdict_or outcome) now c in
    (noted, judge now claim rotation (verdict_or outcome) noted)

unfoldable pub set_owner : Text → Text → Catalog → Catalog
set_owner key claimant c = record c {
  ownership = put key (claimant ∷ []) c.ownership;
  ever_verified = adjoin key c.ever_verified;
}

-- `entry.boundPayTo = [claimant]` on the captured object, wherever the map still holds it.
unfoldable pub rebind_object : Claim → StoredEntry → StoredEntry
rebind_object claim entry =
    if entry.object == claim.object
    then record entry { bound_pay_to = claim.claimant ∷ [] }
    else entry

-- The rotation after consumeRotationAuthorizationAndDisplace, by whether that moved the binding.
unfoldable pub end_rotation : Env → Claim → Bool → Catalog → Catalog × Step
end_rotation env claim false c = (c, refused)
end_rotation env claim true c = (
  set_verified_owner env claim.key true (
      set_owner claim.key claim.claimant
        (record c { entries = alter (rebind_object claim) c.entries })),
  displaced,
)

-- Whether a displacement gets past displaceOwnership, which is only called if there is a store, by
-- whether that call succeeds.
unfoldable pub gets_past_store : Bool → Catalog → Bool
gets_past_store written c = not c.has_store || written

-- The displacement from there on; without a store it always gets there.
unfoldable pub end_displacement :
    Env → ℕ → Claim → DiscoveredResource → PaymentRequirements → Bool → Catalog → Catalog × Step
end_displacement env now claim discovered r false c = (c, refused)
end_displacement env now claim discovered r true c =
    let owned = set_owner claim.key claim.claimant c in
    let emptied = record owned { entries = drop_key claim.key owned.entries } in
    (
      set_verified_owner env claim.key true
          (upsert_from_payment env now discovered r true emptied).0,
      displaced,
    )

-- The write that a judged claim makes, if it makes one.
unfoldable pub write_claim :
    Env
    → ℕ
    → Claim
    → DiscoveredResource
    → PaymentRequirements
    → Bool
    → Catalog × Step
    → Catalog × Step
write_claim env now claim discovered r written (c, moving) =
    end_displacement env now claim discovered r (gets_past_store written c) c
write_claim env now claim discovered r written (c, rotating) = end_rotation env claim written c
write_claim env now claim discovered r written (c, skipped) = (c, skipped)
write_claim env now claim discovered r written (c, refused) = (c, refused)
write_claim env now claim discovered r written (c, displaced) = (c, displaced)

unfoldable pub probe_claim :
    Env
    → ℕ
    → Claim
    → DiscoveredResource
    → PaymentRequirements
    → Option RotationAuthorization
    → (Probe → Option OwnershipVerdict)
    → Bool
    → Catalog × Option Probe
    → Catalog × Step
probe_claim env now claim discovered r rotation verify written (c, none) = (c, skipped)
probe_claim env now claim discovered r rotation verify written (c, some probe) =
    write_claim env now claim discovered r written (end_probe now claim rotation (verify probe) c)

-- The store's answer to the lookup; with no store there is no marker.
abbrev pub marker_of :
    Catalog → Claim → (Claim → Option RotationAuthorization) → Option RotationAuthorization
marker_of c claim rotation = if c.has_store then rotation claim else none

unfoldable pub displace_claim :
    Env
    → ℕ
    → DiscoveredResource
    → PaymentRequirements
    → (Claim → Option RotationAuthorization)
    → (Probe → Option OwnershipVerdict)
    → Bool
    → Option Claim
    → Catalog
    → Catalog × Step
displace_claim env now discovered r rotation verify written none c = (c, skipped)
displace_claim env now discovered r rotation verify written (some claim) c =
    probe_claim env now claim discovered r (marker_of c claim rotation) verify written
      (begin_probe env now claim (marker_of c claim rotation) c)

-- tryDisplace with nothing in between: `rotation` is the store's answer to the lookup, `verify` the
-- answer to a probe, which is `none` where it throws, and `written` whether the store's write, if there
-- is a store, moved the binding.
unfoldable pub try_displace :
    Env
    → ℕ
    → Text
    → Text
    → DiscoveredResource
    → PaymentRequirements
    → (Claim → Option RotationAuthorization)
    → (Probe → Option OwnershipVerdict)
    → Bool
    → Catalog
    → Catalog × Step
try_displace env now raw_url claimant discovered r rotation verify written c =
    displace_claim env now discovered r rotation verify written
      (begin_displace env raw_url claimant discovered c) c

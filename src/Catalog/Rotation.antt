-- ===== src/Catalog/Rotation.antt =====
-- src/catalog.ts: authorizeRotation, the marker that a settlement of the owner leaves.
use vellar_facilitator.Base.{
  ℕ, Bool, false, not, ◌&&◌, Option, none, some, length, if◌then◌else◌, ◌==◌,
}
use vellar_facilitator.Base.Text.{same_text}
use vellar_facilitator.Base.Table.{Text}
use vellar_facilitator.Catalog.State.{Env, Catalog, key_of, entry_at}
use vellar_facilitator.Catalog.Displace.{RotationAuthorization, text_or_empty, current_owner}

-- The marker that authorizeRotation checks a settlement against.
pub record Marker : Type 0 where
  pub pay_to : Option Text
  pub scheme : Text
  pub network : Text

pub record Settled : Type 0 where
  pub pay_to : Text
  pub scheme : Text
  pub network : Text

unfoldable pub pays_marker : Settled → Marker → Bool
pays_marker settled marker = elim marker.pay_to [
  | none ↦ false
  | some pay_to ↦
      not (length pay_to == 0)
      && same_text settled.pay_to pay_to
      && same_text settled.scheme marker.scheme
      && same_text settled.network marker.network
]

abbrev is_text : Text → Option Text → Bool
is_text t none = false
is_text t (some s) = same_text s t

-- The three-way match.
unfoldable pub three_way_match : Option Text → Text → Option Text → Bool
three_way_match payer claimed_old_pay_to owner =
    not (length (text_or_empty payer) == 0)
    && is_text claimed_old_pay_to payer
    && is_text claimed_old_pay_to owner

-- authorizeRotation: the marker that it hands to the store, if it does.
unfoldable pub authorize_rotation :
    Env
    → Catalog
    → Text
    → Option Text
    → Text
    → Text
    → Text
    → ℕ
    → ℕ
    → Settled
    → Marker
    → Option RotationAuthorization
authorize_rotation env c raw_url payer claimed_old new_pay_to nonce settled_at expires_at settled
      marker =
    let key = key_of env raw_url none in
    if c.has_store
      && pays_marker settled marker
      && not (same_text new_pay_to claimed_old)
      && three_way_match payer claimed_old (current_owner (entry_at c key))
    then some (record {
      resource_key = text_or_empty key;
      old_pay_to = claimed_old;
      new_pay_to = new_pay_to;
      nonce = nonce;
      settled_at = settled_at;
      expires_at = expires_at;
      consumed_at = none;
    })
    else none

-- ===== src/Catalog/State.antt =====
-- src/catalog.ts: the data of BazaarCatalog. Times are milliseconds; `lastUpdated` and `lastSettled`
-- are ISO texts in the code, which compare as the times do. A field of a client's JSON that is not of
-- the type wanted is `none`.
use vellar_facilitator.Base.{
  ℕ, ◌*◌, Bool, true, false, ◌&&◌, ◌||◌, not, Option, none, some, List, ◌==◌, if◌then◌else◌,
}
use vellar_facilitator.Base.Text.{codes, same_text, includes}
use vellar_facilitator.Base.Table.{Text, find, put}
use vellar_facilitator.Address.{is_blocked_address}
use vellar_facilitator.Ownership.{OwnershipVerdict, matched, mismatch, unverifiable, timeout}
use vellar_facilitator.Catalog.Key.{canonical_resource_key}
use vellar_facilitator.Catalog.Sanitize.{RawMetadata, Metadata, Platform}

abbrev pub max_tracked_payers : ℕ
max_tracked_payers = 10_000

abbrev pub max_entries : ℕ
max_entries = 10_000

abbrev pub max_accepts : ℕ
max_accepts = 20

abbrev pub max_tombstones : ℕ
max_tombstones = 100_000

-- What the catalog takes from outside.
pub record Env : Type 0 where
  pub platform : Platform
  pub is_ip : Text → ℕ

-- A payment requirement of a /settle body, and one that is stored. `max_timeout_seconds` may be
-- absent (`none`).
pub record PaymentRequirements : Type 0 where
  pub scheme : Option Text
  pub network : Option Text
  pub asset : Option Text
  pub amount : Option Text
  pub pay_to : Option Text
  pub max_timeout_seconds : Option (Option ℕ)
  pub extra : Option Text

pub record Accept : Type 0 where
  pub scheme : Text
  pub network : Text
  pub asset : Text
  pub amount : Text
  pub pay_to : Text
  pub max_timeout_seconds : Option ℕ
  pub extra : Option Text

pub record DiscoveredResource : Type 0 where
  pub resource_url : Text
  pub input_type : Option Text
  pub tool_name : Option Text
  pub x402_version : Option ℕ
  pub metadata : RawMetadata

pub record DiscoveryResource : Type 0 where
  pub resource : Text
  pub type : Text
  pub x402_version : ℕ
  pub accepts : List Accept
  pub last_updated : ℕ
  pub metadata : Metadata

pub record SettlementStats : Type 0 where
  pub settlements : ℕ
  pub observed : ℕ
  pub payers : List Text
  pub last_settled : Option ℕ

-- `object` is the identity of the JavaScript object.
pub record StoredEntry : Type 0 where
  pub object : ℕ
  pub resource : DiscoveryResource
  pub stats : SettlementStats
  pub restored : Bool
  pub bound_pay_to : List Text
  pub verified_owner : Bool

pub data FreezeReason : Type 0 where
  ownership_unreachable ownership_invalid tombstone_cap : FreezeReason

-- `has_store` says whether a store was given.
pub record Catalog : Type 0 where
  pub entries : List (Text × StoredEntry)
  pub ownership : List (Text × List Text)
  pub ever_verified : List Text
  pub frozen : Option FreezeReason
  pub verify_in_flight : List Text
  pub verify_state : List (Text × (OwnershipVerdict × ℕ))
  pub displace_in_flight : List Text
  pub displace_state : List (Text × (OwnershipVerdict × ℕ))
  pub warned_unverifiable : List Text
  pub has_store : Bool
  pub next_object : ℕ

-- `frozen` for a reason of ownership.
unfoldable pub frozen_on_ownership : Option FreezeReason → Bool
frozen_on_ownership none = false
frozen_on_ownership (some ownership_unreachable) = true
frozen_on_ownership (some ownership_invalid) = true
frozen_on_ownership (some tombstone_cap) = false

-- cooldownFor.
unfoldable pub cooldown_for : OwnershipVerdict → ℕ
cooldown_for mismatch = 24 * 60 * 60 * 1000
cooldown_for timeout = 60 * 1000
cooldown_for matched = 15 * 60 * 1000
cooldown_for unverifiable = 15 * 60 * 1000

unfoldable pub is_templated_key : Env → Text → Bool
is_templated_key env key = elim (env.platform.parse_url key) [
  | none ↦ false
  | some u ↦ includes b':' u.pathname || includes b'{' u.pathname
]

unfoldable pub is_structurally_unverifiable : Env → Text → Bool
is_structurally_unverifiable env key = elim (env.platform.parse_url key) [
  | none ↦ true
  | some u ↦
      not (same_text u.protocol (codes "https:"))
      || is_templated_key env key
      || same_text u.hostname (codes "localhost")
      || (not (env.is_ip u.hostname == 0) && is_blocked_address env.is_ip u.hostname)
]

unfoldable pub tool_name_of : DiscoveredResource → Option Text
tool_name_of discovered = elim discovered.input_type [
  | none ↦ none
  | some t ↦ (if same_text t (codes "mcp") then discovered.tool_name else none)
]

-- `canonicalResourceKey`, and `entries.get` of it.
unfoldable pub key_of : Env → Text → Option Text → Option Text
key_of env raw_url tool_name = canonical_resource_key env.platform.parse_url raw_url tool_name

unfoldable pub entry_at : Catalog → Option Text → Option StoredEntry
entry_at c none = none
entry_at c (some key) = find key c.entries

-- An assignment to the fields of the entry that the map holds under the key.
unfoldable pub set_entry : Text → StoredEntry → Catalog → Catalog
set_entry key entry c = record c { entries = put key entry c.entries }

unfoldable pub mark_verified : Bool → Option Text → Option StoredEntry → Catalog → Catalog
mark_verified verified none found c = c
mark_verified verified (some key) none c = c
mark_verified verified (some key) (some entry) c =
    set_entry key (record entry { verified_owner = verified }) c

-- setVerifiedOwner, which makes a key of the key that it is given.
unfoldable pub set_verified_owner : Env → Text → Bool → Catalog → Catalog
set_verified_owner env resource_url verified c =
    let key = key_of env resource_url none in mark_verified verified key (entry_at c key) c

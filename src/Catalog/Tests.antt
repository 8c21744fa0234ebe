-- ===== src/Catalog/Tests.antt =====
-- A catalog with one resource, and the theorems at it.
use vellar_facilitator.Catalog.Displace.{set_owner, rebind_object}
use vellar_facilitator.Catalog.State.{set_verified_owner, mark_verified}
use vellar_facilitator.Catalog.Upsert.{write_update, drop_oldest, by_age}
use vellar_facilitator.Catalog.Displace.{
  displace_claim, claim_of, probe_claim, may_probe, object_bound_pay_to, has_live_rotation_auth,
  note_displace, judge, proven, write_claim, end_displacement,
}
use vellar_facilitator.Catalog.State.{is_templated_key, frozen_on_ownership}
use vellar_facilitator.Catalog.Verify.{cooling_down}
use vellar_facilitator.Catalog.State.{set_entry}
use vellar_facilitator.Catalog.State.{is_structurally_unverifiable}
use vellar_facilitator.Catalog.Upsert.{warn_unverifiable}
use vellar_facilitator.Catalog.Upsert.{evict_to_cap, evict_to}
use vellar_facilitator.Catalog.Upsert.{write_entry}
use vellar_facilitator.Catalog.Upsert.{write_first}
use vellar_facilitator.Catalog.Upsert.{commit_binding}
use vellar_facilitator.Catalog.Verify.{cooling_down}
use vellar_facilitator.Catalog.Upsert.{pick_accept_fields}
use vellar_facilitator.Catalog.Upsert.{seen}
use vellar_facilitator.Catalog.Displace.{claim_of}
use vellar_facilitator.Base.Text.{trim}
use vellar_facilitator.Catalog.Key.Path.{normalize_path}
use vellar_facilitator.Base.{
  ℕ, ◌+◌, ◌≡◌, ◌≢◌, ◌<◌, refl, Bool, true, false, Option, none, some, List, [], ◌∷◌, ◌++◌,
  if◌then◌else◌, arith,
}
use vellar_facilitator.Base.Text.{codes, same_text, includes}
use vellar_facilitator.Base.Table.{Text, find, member}
use vellar_facilitator.Ownership.{OwnershipVerdict, matched, mismatch}
use vellar_facilitator.Catalog.Verify.{Probe}
use vellar_facilitator.Catalog.Displace.{gets_past_store, claim_probe}
use vellar_facilitator.Catalog.Key.{
  Url, key_separator, split_resource_key, base_key, canonical_resource_key, canonical_pay_to,
}
use vellar_facilitator.Catalog.Key.Laws.{without_separators, split-canonical_resource_key}
use vellar_facilitator.Catalog.Sanitize.{RawMetadata}
use vellar_facilitator.Catalog.State.{
  Env, PaymentRequirements, Accept, DiscoveredResource, DiscoveryResource, StoredEntry, Catalog,
  key_of, entry_at, tool_name_of, cooldown_for,
}
use vellar_facilitator.Catalog.Upsert.{finish_upsert, Pending, add_accept}
use vellar_facilitator.Catalog.Displace.{
  Claim, RotationAuthorization, displaced, begin_displace, begin_probe, end_probe, end_rotation,
  try_displace, current_owner,
}
use vellar_facilitator.Catalog.Events.{
  Event, upserts, settles, claims, claim_probed, displacement_written, run,
}
use vellar_facilitator.Catalog.Untouched.{Remembers}
use vellar_facilitator.Catalog.Memory.{run-Remembers}
use vellar_facilitator.Catalog.Steadiness.{run-keeps_owner}
use vellar_facilitator.Catalog.Agreement.{Mirrors}
use vellar_facilitator.Catalog.Agreement.Histories.{run-Mirrors}

abbrev pub shop : Text
shop = codes "https://a.io/x"

abbrev parse_url : Text → Option Url
parse_url t =
    if same_text t shop
    then some (record {
      protocol = codes "https:";
      origin = codes "https://a.io";
      hostname = codes "a.io";
      pathname = codes "/x";
    })
    else none

abbrev keep_text : Text → Text
keep_text t = t

abbrev no_credentials : Url → Bool
no_credentials u = false

abbrev no_ip : Text → ℕ
no_ip t = 0

abbrev pub env : Env
env = record {
  platform = record { strip = keep_text; parse_url = parse_url; credentials = no_credentials };
  is_ip = no_ip;
}

abbrev pub raw : RawMetadata
raw = record {
  description = none;
  mime_type = none;
  service_name = none;
  tags = none;
  icon_url = none;
  extensions = none;
}

abbrev pub discovered : DiscoveredResource
discovered = record {
  resource_url = shop;
  input_type = some (codes "http");
  tool_name = none;
  x402_version = some 2;
  metadata = raw;
}

abbrev pub pays : Text → PaymentRequirements
pays t = record {
  scheme = some (codes "exact");
  network = some (codes "stellar:pubnet");
  asset = some (codes "USDC");
  amount = some (codes "5");
  pay_to = some t;
  max_timeout_seconds = none;
  extra = none;
}

abbrev pub ga : Text
ga = codes "GA"

abbrev pub gb : Text
gb = codes "GB"

abbrev pub resource : DiscoveryResource
resource = record {
  resource = shop;
  type = codes "http";
  x402_version = 2;
  accepts = [];
  last_updated = 1;
  metadata = record {
    description = none;
    mime_type = none;
    service_name = none;
    tags = none;
    icon_url = none;
    extensions = none;
  };
}

abbrev pub entry : StoredEntry
entry = record {
  object = 0;
  resource = resource;
  stats = record { settlements = 0; observed = 0; payers = []; last_settled = none };
  restored = false;
  bound_pay_to = ga ∷ [];
  verified_owner = false;
}

-- The shop is bound to GA and was never proven.
abbrev pub listed : Catalog
listed = record {
  entries = (shop, entry) ∷ [];
  ownership = (shop, ga ∷ []) ∷ [];
  ever_verified = [];
  frozen = none;
  verify_in_flight = [];
  verify_state = [];
  displace_in_flight = [];
  displace_state = [];
  warned_unverifiable = [];
  has_store = true;
  next_object = 1;
}

abbrev no_marker : Claim → Option RotationAuthorization
no_marker claim = none

abbrev pub claim : Claim
claim = record {
  key = shop;
  claimant = gb;
  object = 0;
  bound_pay_to = ga ∷ [];
  owner_at_start = some ga;
}

shop_key : key_of env shop none ≡ some shop
unfolding key_of canonical_resource_key same_text includes normalize_path
shop_key = refl

pub discovered_key : key_of env discovered.resource_url (tool_name_of discovered) ≡ some shop
unfolding key_of tool_name_of canonical_resource_key same_text includes normalize_path
discovered_key = refl

pub payee : canonical_pay_to (pays gb).pay_to ≡ some gb
unfolding canonical_pay_to trim
payee = refl

pub found_entry : find shop listed.entries ≡ some entry
unfolding same_text
found_entry = refl

found_owner : find shop listed.ownership ≡ some (ga ∷ [])
unfolding same_text
found_owner = refl

pub unbound_gb : member gb (ga ∷ []) ≡ false
unfolding same_text
unbound_gb = refl

pub others :
    (e : StoredEntry)
    → entry_at listed (key_of env shop none) ≡ some e
    → member gb e.bound_pay_to ≡ false
unfolding entry_at
others e h =
    let known : entry ≡ e = ground (arith, h, shop_key, found_entry) in
    ground (arith, known, unbound_gb)

listed-Mirrors : Mirrors listed
listed-Mirrors k e h = ground (arith, h)

-- The endpoint names GB alone, or GA alone.
abbrev names_gb : Probe → Option OwnershipVerdict
names_gb probe = some (if member gb probe.pay_tos then matched else mismatch)

abbrev names_ga : Probe → Option OwnershipVerdict
names_ga probe = some (if member ga probe.pay_tos then matched else mismatch)

unproven_claim :
    (try_displace env 5 shop gb discovered (pays gb) no_marker names_ga true listed).1 ≢ displaced
unfolding try_displace displace_claim begin_displace claim_of key_of canonical_resource_key
    tool_name_of same_text includes entry_at normalize_path probe_claim begin_probe may_probe
    object_bound_pay_to is_templated_key frozen_on_ownership cooling_down has_live_rotation_auth
    end_probe note_displace judge proven write_claim end_displacement gets_past_store claim_probe
unproven_claim e = cc

-- The owner settles, and a claimant's probe fails.
abbrev quiet_day : List Event
quiet_day =
    upserts 5 discovered (pays ga)
    ∷ settles 6 shop (some gb) ga
    ∷ claims 7 claim none
    ∷ claim_probed 7 claim none (some mismatch)
    ∷ []

abbrev pub takeover : List Event
takeover =
    claims 7 claim none
    ∷ claim_probed 7 claim none (some matched)
    ∷ upserts 8 discovered (pays ga)
    ∷ displacement_written 7 claim discovered (pays gb) true
    ∷ []

run-Remembers_example : Remembers listed (run env takeover listed)
run-Remembers_example = run-Remembers env takeover listed

run-keeps_owner_example : find shop (run env quiet_day listed).ownership ≡ some (ga ∷ [])
run-keeps_owner_example = run-keeps_owner env shop (ga ∷ []) quiet_day listed refl found_owner

run-Mirrors_example : Mirrors (run env takeover listed)
run-Mirrors_example = run-Mirrors env takeover listed refl listed-Mirrors

-- What a settlement to GA adds.
abbrev offer : Accept
offer = record {
  scheme = codes "exact";
  network = codes "stellar:pubnet";
  asset = codes "USDC";
  amount = codes "5";
  pay_to = ga;
  max_timeout_seconds = none;
  extra = none;
}

added : add_accept (pays ga) [] ≡ some (offer ∷ [])
unfolding add_accept seen pick_accept_fields
added = refl

-- The key of the shop's tool `t`.
abbrev tool_of_shop : Text
tool_of_shop = shop ++ key_separator ∷ codes "t"

tool_key_of_shop : canonical_resource_key parse_url shop (some (codes "t")) ≡ some tool_of_shop
unfolding canonical_resource_key same_text normalize_path
tool_key_of_shop = refl

no_separator : includes key_separator (base_key parse_url shop) ≡ false
unfolding base_key includes same_text normalize_path
no_separator = refl

split-canonical_resource_key_example :
    split_resource_key tool_of_shop
    ≡ (base_key parse_url shop, some (without_separators (codes "t")))
split-canonical_resource_key_example =
    split-canonical_resource_key parse_url shop (codes "t") tool_of_shop no_separator
      tool_key_of_shop

soon : 6 < 5 + cooldown_for mismatch
unfolding cooldown_for
soon = omega arith

-- A rotation whose probe was running while a settlement of the owner wrote the entry anew: the ownership table has the new owner,
-- the entry the old one.
abbrev settled_meanwhile : Catalog
settled_meanwhile = write_update env shop resource entry listed

rotation_splits :
    let after = (end_rotation env claim true settled_meanwhile).0 in
    (find shop after.ownership ≡ some (gb ∷ []))
    × (current_owner (find shop after.entries) ≡ some ga)
unfolding end_rotation set_owner rebind_object set_verified_owner mark_verified entry_at key_of
    canonical_resource_key normalize_path includes current_owner write_update write_entry
    evict_to_cap evict_to drop_oldest by_age warn_unverifiable is_structurally_unverifiable
    same_text is_templated_key set_entry
rotation_splits = (refl, refl)

-- Two first settlements of a URL whose writes overlap: both are cataloged, the second takes the
-- binding.
abbrev empty : Catalog
empty = record listed { entries = []; ownership = [] }

abbrev pending : Text → Pending
pending t = record { key = shop; pay_to = t; resource = resource }

overlap_overwrites :
    find shop
      (finish_upsert env
        (pending gb)
        true
        (finish_upsert env (pending ga) true empty).0).0.ownership
    ≡ some (gb ∷ [])
unfolding finish_upsert commit_binding write_first write_entry evict_to_cap warn_unverifiable
    is_structurally_unverifiable same_text is_templated_key includes set_entry
overlap_overwrites = refl

-- ===== src/Catalog/Load.antt =====
-- src/catalog.ts: the load of the stored bindings at start, in `create`, where two spellings of one
-- resource may come together; and bindLoadedEntry.
pub mod Row
pub mod Winner
mod Tests
use vellar_facilitator.Base.{
  ℕ, Bool, true, false, not, ◌&&◌, ◌||◌, Option, none, some, List, [], ◌∷◌, ltb, length, filter,
  if◌then◌else◌, ◌==◌,
}
use vellar_facilitator.Base.Text.{same_text}
use vellar_facilitator.Base.Table.{Text, member, adjoin, find, put, is_some}
use vellar_facilitator.Catalog.Key.{split_resource_key, key_of_parts}
use vellar_facilitator.Catalog.State.{Env, Accept, StoredEntry, DiscoveryResource}

-- A row of the ownership table. `bound_at` is `b.boundAt ?? 0`.
pub record OwnershipRow : Type 0 where
  pub resource_key : Text
  pub bound_pay_to : List Text
  pub ever_verified : Bool
  pub bound_at : ℕ

-- What the rows are loaded into.
pub record Bindings : Type 0 where
  pub ownership : List (Text × List Text)
  pub loaded_bound_at : List (Text × ℕ)
  pub ever_verified : List Text

abbrev or_stored : Text → Option Text → Text
or_stored stored none = stored
or_stored stored (some key) = key

-- The key of a row, derived anew from the parts of the stored one.
unfoldable pub row_key : Env → OwnershipRow → Text
row_key env b =
    or_stored b.resource_key
      (key_of_parts env.platform.parse_url (split_resource_key b.resource_key))

abbrev or_zero : Option ℕ → ℕ
or_zero none = 0
or_zero (some n) = n

-- Which of two rows with one key stays.
unfoldable pub incoming_wins : Text → OwnershipRow → Bindings → Bool
incoming_wins key b s =
    if b.ever_verified && not (member key s.ever_verified)
    then true
    else if not b.ever_verified && member key s.ever_verified
    then false
    else if same_text b.resource_key key
    then true
    else ltb b.bound_at (or_zero (find key s.loaded_bound_at))

-- `ownership.set` and `loadedBoundAt.set`.
unfoldable pub take_row : Text → OwnershipRow → Bindings → Bindings
take_row key b s = record s {
  ownership = put key b.bound_pay_to s.ownership;
  loaded_bound_at = put key b.bound_at s.loaded_bound_at;
}

unfoldable pub latch_row : Text → OwnershipRow → Bindings → Bindings
latch_row key b s =
    if b.ever_verified then record s { ever_verified = adjoin key s.ever_verified } else s

-- One turn of the loop. A key that is latched already stays so without being added again.
unfoldable pub merge_row : Env → OwnershipRow → Bindings → Bindings
merge_row env b s =
    let key = row_key env b in
    latch_row key b (
      if not (is_some (find key s.ownership)) || incoming_wins key b s then take_row key b s else s)

unfoldable pub merge_rows : Env → List OwnershipRow → Bindings → Bindings
merge_rows env [] s = s
merge_rows env (b ∷ rows) s = merge_rows env rows (merge_row env b s)

abbrev pub no_bindings : Bindings
no_bindings = record { ownership = []; loaded_bound_at = []; ever_verified = [] }

-- The options that name an address of the binding.
unfoldable pub kept_accepts : List Text → List Accept → List Accept
kept_accepts authoritative accepts = filter (λ a. member a.pay_to authoritative) accepts

-- bindLoadedEntry; a missing binding and an empty one are treated alike.
unfoldable pub bind_loaded_entry : Option (List Text) → StoredEntry → StoredEntry
bind_loaded_entry none stored = record stored {
  resource = record stored.resource { accepts = [] };
  bound_pay_to = [];
  verified_owner = false;
}
bind_loaded_entry (some authoritative) stored = record stored {
  resource = record stored.resource {
    accepts = kept_accepts authoritative stored.resource.accepts;
  };
  bound_pay_to = authoritative;
  verified_owner = false;
}

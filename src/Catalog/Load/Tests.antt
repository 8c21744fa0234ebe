-- ===== src/Catalog/Load/Tests.antt =====
-- Two stored spellings of one resource.
use vellar_facilitator.Catalog.Load.{incoming_wins}
use vellar_facilitator.Catalog.Key.Path.{normalize_path}
use vellar_facilitator.Base.Text.{includes}
use vellar_facilitator.Catalog.Key.{split_resource_key}
use vellar_facilitator.Catalog.Key.{key_of_parts}
use vellar_facilitator.Catalog.Load.{row_key}
use vellar_facilitator.Catalog.Load.{take_row}
use vellar_facilitator.Catalog.Load.{latch_row}
use vellar_facilitator.Catalog.Load.{merge_row}
use vellar_facilitator.Base.{ℕ, ◌≡◌, refl, Bool, true, false, Option, some, [], ◌∷◌}
use vellar_facilitator.Base.Text.{codes, same_text}
use vellar_facilitator.Base.Table.{Text, find}
use vellar_facilitator.Catalog.Key.{Url}
use vellar_facilitator.Catalog.State.{Env}
use vellar_facilitator.Catalog.Load.{OwnershipRow, merge_rows, no_bindings}
use vellar_facilitator.Catalog.Load.Row.{IsInForce, reversed_onto}
use vellar_facilitator.Catalog.Load.Winner.{loaded-IsInForce}

abbrev shop : Text
shop = codes "https://a.io/x"

-- Every URL is a spelling of the shop's.
abbrev parse_url : Text → Option Url
parse_url t = some (record {
  protocol = codes "https:";
  origin = codes "https://a.io";
  hostname = codes "a.io";
  pathname = codes "/x";
})

abbrev keep_text : Text → Text
keep_text t = t

abbrev no_credentials : Url → Bool
no_credentials u = false

abbrev no_ip : Text → ℕ
no_ip t = 0

abbrev env : Env
env = record {
  platform = record { strip = keep_text; parse_url = parse_url; credentials = no_credentials };
  is_ip = no_ip;
}

abbrev canonical_row : OwnershipRow
canonical_row = record {
  resource_key = shop;
  bound_pay_to = codes "GA" ∷ [];
  ever_verified = false;
  bound_at = 5;
}

abbrev older_row : OwnershipRow
older_row = record {
  resource_key = codes "https://a.io/x/";
  bound_pay_to = codes "GB" ∷ [];
  ever_verified = false;
  bound_at = 3;
}

-- Read first, the row under the canonical spelling loses to the older one; read last, it wins.
order_decides :
    (find shop (merge_rows env (canonical_row ∷ older_row ∷ []) no_bindings).ownership
      ≡ some (codes "GB" ∷ []))
    × (find shop (merge_rows env (older_row ∷ canonical_row ∷ []) no_bindings).ownership
        ≡ some (codes "GA" ∷ []))
unfolding merge_rows merge_row latch_row take_row same_text row_key key_of_parts split_resource_key
    includes normalize_path incoming_wins
order_decides = (refl, refl)

-- The row of the other spelling, proven.
abbrev proven_row : OwnershipRow
proven_row = record older_row { ever_verified = true }

-- Read after a verified row, the unverified row under the canonical spelling does not displace it.
proof_stays :
    find shop (merge_rows env (proven_row ∷ canonical_row ∷ []) no_bindings).ownership
    ≡ some (codes "GB" ∷ [])
unfolding merge_rows merge_row latch_row take_row same_text row_key key_of_parts split_resource_key
    includes normalize_path incoming_wins
proof_stays = refl

loaded-IsInForce_example :
    IsInForce env
      (reversed_onto (proven_row ∷ canonical_row ∷ []) [])
      (merge_rows env (proven_row ∷ canonical_row ∷ []) no_bindings)
      shop
      (codes "GB" ∷ [])
loaded-IsInForce_example =
    loaded-IsInForce env (proven_row ∷ canonical_row ∷ []) shop (codes "GB" ∷ []) proof_stays

-- ===== src/Ownership/Tests.antt =====
-- src/ownership.ts: the verification of a resource at concrete inputs.
use vellar_facilitator.Base.{
  ℕ, zero, suc, ◌≡◌, refl, true, false, Option, none, some, List, [], ◌∷◌, all, if◌then◌else◌,
}
use vellar_facilitator.Base.Text.{codes, same_text}
use vellar_facilitator.Base.Table.{Text}
use vellar_facilitator.Address.{is_blocked_address}
use vellar_facilitator.Catalog.Key.{Url}
use vellar_facilitator.Catalog.Sanitize.{strip_brackets}
use vellar_facilitator.Ownership.{
  matched, Fetched, answered, aborted, Net, VerifyOptions, max_response_bytes,
  default_retry_delays_ms, verify_resource_ownership,
}
use vellar_facilitator.Ownership.Probe.{is_public, connects_to_public}
use vellar_facilitator.Ownership.Match.{MatchEvidence, matched-MatchEvidence}

abbrev shop : Text
shop = codes "https://a.io/x"

abbrev literal_url : Url
literal_url = record {
  protocol = codes "https:";
  origin = codes "https://8.8.8.8";
  hostname = codes "8.8.8.8";
  pathname = codes "/x";
}

abbrev parse_url : Text → Option Url
parse_url t =
    if same_text t shop
    then some (record {
      protocol = codes "https:";
      origin = codes "https://a.io";
      hostname = codes "a.io";
      pathname = codes "/x";
    })
    else some literal_url

abbrev is_ip : Text → ℕ
is_ip t = if same_text t (codes "a.io") then 0 else 4

abbrev lookup : ℕ → Text → Option Text
lookup attempt host = some (codes "8.8.8.8")

-- The first attempt times out, the second is answered.
abbrev fetch : ℕ → Text → Fetched
fetch zero address = aborted
fetch (suc n) address = answered 402 (some (codes "h"))

abbrev decode_challenge : Text → Option (List (Option Text))
decode_challenge header = some (none ∷ some (codes "GA") ∷ [])

abbrev net : Net
net = record {
  parse_url = parse_url;
  is_ip = is_ip;
  lookup = lookup;
  fetch = fetch;
  decode_challenge = decode_challenge;
}

abbrev opts : VerifyOptions
opts = record {
  insecure_test_transport = false;
  max_bytes = max_response_bytes;
  cold_start_retry_delays_ms = default_retry_delays_ms;
}

abbrev owners : List Text
owners = [] ∷ codes "GB" ∷ codes "GA" ∷ []

verified_late : (verify_resource_ownership net opts shop owners).verdict ≡ matched
unfolding verify_resource_ownership is_blocked_address same_text strip_brackets
verified_late = refl

connects_to_public_example :
    all (is_public net) (verify_resource_ownership net opts shop owners).pinned ≡ true
connects_to_public_example = connects_to_public net opts shop owners refl

matched-MatchEvidence_example : MatchEvidence net opts shop owners
matched-MatchEvidence_example = matched-MatchEvidence net opts shop owners verified_late

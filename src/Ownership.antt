-- ===== src/Ownership.antt =====
-- src/ownership.ts: the check that a resource's own 402 challenge names its owner. Parameters are
-- what the platform does: `new URL()`, `isIP`, the lookup and the fetch of each attempt, and the
-- decoding of a challenge header, which yields the `payTo` of each accept, `none` for one that is no
-- text. A fetch is told the address that its connection is pinned to.
pub mod Routable
pub mod Probe
pub mod Match
mod Tests
use vellar_facilitator.Base.{
  ℕ, suc, ◌*◌, Bool, true, false, not, ◌&&◌, ◌||◌, Option, none, some, List, [], ◌∷◌, ◌++◌, ltb,
  ◌==◌, length, filter, if◌then◌else◌,
}
use vellar_facilitator.Base.Text.{codes, same_text}
use vellar_facilitator.Base.Table.{Text, member}
use vellar_facilitator.Address.{is_blocked_address}
use vellar_facilitator.Catalog.Key.{UrlParser, Url}
use vellar_facilitator.Catalog.Sanitize.{strip_brackets}

pub data OwnershipVerdict : Type 0 where
  matched mismatch unverifiable timeout : OwnershipVerdict

-- A response's status and its PAYMENT-REQUIRED header, an abort by the probe's own timer, or another
-- failure.
pub data Fetched : Type 0 where
  answered : ℕ → Option Text → Fetched
  aborted failed : Fetched

pub record Net : Type 0 where
  pub parse_url : UrlParser
  pub is_ip : Text → ℕ
  pub lookup : ℕ → Text → Option Text
  pub fetch : ℕ → Text → Fetched
  pub decode_challenge : Text → Option (List (Option Text))

-- VerifyOptions, and the defaults of what the code reads of them.
pub record VerifyOptions : Type 0 where
  pub insecure_test_transport : Bool
  pub max_bytes : ℕ
  pub cold_start_retry_delays_ms : List ℕ

abbrev pub max_response_bytes : ℕ
max_response_bytes = 64 * 1024

abbrev pub default_retry_delays_ms : List ℕ
default_retry_delays_ms = 45_000 ∷ 120_000 ∷ []

-- The address that the host stands for: a literal is its own.
unfoldable pub resolve : Net → ℕ → Text → Option Text
resolve net attempt host = if net.is_ip host == 0 then net.lookup attempt host else some host

-- The check of the address found.
unfoldable pub vet_address : Net → Bool → Option Text → Option Text
vet_address net insecure none = none
vet_address net insecure (some address) =
    if is_blocked_address net.is_ip address && not insecure then none else some address

-- `none` where the code throws.
unfoldable pub assert_public_https_url : Net → Bool → ℕ → Text → Option Text
unfolding resolve vet_address
assert_public_https_url net insecure attempt raw_url = elim (net.parse_url raw_url) [
  | none ↦ none
  | some url ↦
      (if not (same_text url.protocol (codes "https:")) && not insecure
        then none
        else vet_address net insecure (resolve net attempt (strip_brackets url.hostname)))
]

-- The non-empty texts of a challenge, and the test that one claim is among them.
unfoldable pub named_pay_tos : List (Option Text) → List Text
named_pay_tos [] = []
named_pay_tos (none ∷ accepts) = named_pay_tos accepts
named_pay_tos (some [] ∷ accepts) = named_pay_tos accepts
named_pay_tos (some (c ∷ cs) ∷ accepts) = (c ∷ cs) ∷ named_pay_tos accepts

unfoldable pub any_named : List Text → List Text → Bool
any_named [] pay_tos = false
any_named (c ∷ claims) pay_tos = member c pay_tos || any_named claims pay_tos

unfoldable pub verdict_on : List Text → List Text → OwnershipVerdict
unfolding any_named
verdict_on claims [] = unverifiable
verdict_on claims (p ∷ pay_tos) = if any_named claims (p ∷ pay_tos) then matched else mismatch

unfoldable pub verdict_of_challenge : List Text → Option (List (Option Text)) → OwnershipVerdict
unfolding verdict_on named_pay_tos
verdict_of_challenge claims none = unverifiable
verdict_of_challenge claims (some accepts) = verdict_on claims (named_pay_tos accepts)

-- What the probe makes of a response; an empty header is no header.
unfoldable pub verdict_of_response : Net → ℕ → List Text → Fetched → OwnershipVerdict
unfolding verdict_of_challenge
verdict_of_response net max_bytes claims aborted = timeout
verdict_of_response net max_bytes claims failed = unverifiable
verdict_of_response net max_bytes claims (answered status none) = unverifiable
verdict_of_response net max_bytes claims (answered status (some header)) =
    if not (status == 402)
    then unverifiable
    else if length header == 0 || ltb max_bytes (length header)
    then unverifiable
    else verdict_of_challenge claims (net.decode_challenge header)

-- A verdict, with the addresses that were connected to on the way.
pub record Probed : Type 0 where
  pub verdict : OwnershipVerdict
  pub pinned : List Text

-- The probe of an address that the guard let through, if it did.
unfoldable pub probe_vetted : Net → VerifyOptions → ℕ → List Text → Option Text → Probed
unfolding verdict_of_response
probe_vetted net opts attempt claims none = record { verdict = unverifiable; pinned = [] }
probe_vetted net opts attempt claims (some vetted) = record {
  verdict = verdict_of_response net opts.max_bytes claims (net.fetch attempt vetted);
  pinned = vetted ∷ [];
}

unfoldable pub probe_once : Net → VerifyOptions → ℕ → Text → List Text → Probed
unfolding assert_public_https_url probe_vetted
probe_once net opts attempt resource_url claims =
    probe_vetted net opts attempt claims
      (assert_public_https_url net opts.insecure_test_transport attempt resource_url)

unfoldable pub is_timeout : OwnershipVerdict → Bool
is_timeout matched = false
is_timeout mismatch = false
is_timeout unverifiable = false
is_timeout timeout = true

-- A probe, and after a timeout one more for each delay that is left.
unfoldable pub probe_with_retries : Net → VerifyOptions → ℕ → Text → List Text → List ℕ → Probed
unfolding probe_once is_timeout
probe_with_retries net opts attempt resource_url claims [] =
    probe_once net opts attempt resource_url claims
probe_with_retries net opts attempt resource_url claims (d ∷ delays) =
    let probed = probe_once net opts attempt resource_url claims in
    let retried = probe_with_retries net opts (suc attempt) resource_url claims delays in
    if is_timeout probed.verdict
    then record retried { pinned = probed.pinned ++ retried.pinned }
    else probed

abbrev pub is_non_empty : Text → Bool
is_non_empty t = not (length t == 0)

-- On claims that are texts.
unfoldable pub verify_resource_ownership : Net → VerifyOptions → Text → List Text → Probed
unfolding probe_with_retries
verify_resource_ownership net opts resource_url settled_pay_to =
    let claims = filter is_non_empty settled_pay_to in
    if length claims == 0
    then record { verdict = unverifiable; pinned = [] }
    else probe_with_retries net opts 0 resource_url claims opts.cold_start_retry_delays_ms

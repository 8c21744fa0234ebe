-- ===== src/Ownership/Routable.antt =====
-- src/ownership.ts: assertRoutableResourceUrl, the check when a URL is first registered.
use vellar_facilitator.Base.{
  ℕ, Bool, not, ◌&&◌, ◌||◌, Option, none, some, List, [], ◌∷◌, ◌==◌, length, map, if◌then◌else◌,
}
use vellar_facilitator.Base.Text.{codes, same_text, trim, includes, ends_with, lower}
use vellar_facilitator.Base.Table.{Text, member}
use vellar_facilitator.Address.{is_blocked_address}
use vellar_facilitator.Catalog.Key.{UrlParser, Url}
use vellar_facilitator.Catalog.Sanitize.{strip_brackets}

pub data UnroutableReason : Type 0 where
  malformed_url empty_or_relative_url non_https_on_pubnet : UnroutableReason
  localhost_or_loopback_literal local_tld bare_hostname_no_dot blocked_address : UnroutableReason

-- LOOPBACK_HOSTNAME_LITERALS.
abbrev pub loopback_hostname_literals : List Text
loopback_hostname_literals =
    codes "localhost"
    ∷ codes "0.0.0.0"
    ∷ codes "::1"
    ∷ codes "[::1]"
    ∷ codes "ip6-localhost"
    ∷ codes "ip6-loopback"
    ∷ []

abbrev pub is_http : Text → Bool
is_http protocol = same_text protocol (codes "http:") || same_text protocol (codes "https:")

-- The last test, which looks at the network.
unfoldable pub check_network : Text → Text → Option UnroutableReason
check_network network protocol =
    if same_text network (codes "stellar:pubnet") && not (same_text protocol (codes "https:"))
    then some non_https_on_pubnet
    else none

-- The tests of the host, in the code's order; `after` is the outcome where it passes them.
unfoldable pub check_host : (Text → ℕ) → Text → Option UnroutableReason → Option UnroutableReason
check_host is_ip host after =
    if length host == 0
    then some malformed_url
    else if member host loopback_hostname_literals
    then some localhost_or_loopback_literal
    else if ends_with host (codes ".local")
    then some local_tld
    else if not (is_ip host == 0)
    then if is_blocked_address is_ip host then some blocked_address else after
    else if not (includes b'.' host)
    then some bare_hostname_no_dot
    else after

abbrev pub host_of : Url → Text
host_of u = map lower (strip_brackets u.hostname)

-- `none` is `{ ok: true }`.
unfoldable pub assert_routable_resource_url :
    UrlParser → (Text → ℕ) → Text → Text → Option UnroutableReason
unfolding check_host check_network
assert_routable_resource_url parse_url is_ip raw_url network =
    let parsed : Option UnroutableReason = elim (parse_url raw_url) [
      | none ↦ some malformed_url
      | some u ↦
          (if is_http u.protocol
            then check_host is_ip (host_of u) (check_network network u.protocol)
            else some malformed_url)
    ] in
    if length (trim raw_url) == 0 then some empty_or_relative_url else parsed

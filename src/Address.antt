-- ===== src/Address.antt =====
-- src/ownership.ts: isBlockedAddress, the range check of the SSRF guard. Texts are lists of code
-- points. Node's `isIP` is a parameter; on a text that it does not accept nothing else is read.
pub mod Ipv4
pub mod Ipv6
pub mod Parse
mod Tests
use vellar_facilitator.Base.{
  ℕ, ◌==◌, Bool, true, false, List, [], ◌∷◌, map, if◌then◌else◌, Option, none, some,
}
use vellar_facilitator.Base.Text.{split, decimal}
use Ipv4.{is_blocked_octets, all_octets}
use Ipv6.{is_blocked_bytes}
use Parse.{parse_ipv6_to_bytes}

-- isBlockedIpv4. A part that is no number is refused; isIP has accepted the text, so that each part
-- is one to three digits, on which `Number` is `decimal`.
unfoldable pub is_blocked_ipv4 : List ℕ → Bool
unfolding split decimal all_octets is_blocked_octets
is_blocked_ipv4 ip = elim (all_octets (map decimal (split b'.' ip))) [
  | none ↦ true
  | some parts ↦ is_blocked_octets parts
]

-- isBlockedIpv6.
unfoldable pub is_blocked_ipv6 : List ℕ → Bool
unfolding parse_ipv6_to_bytes is_blocked_bytes
is_blocked_ipv6 ip = elim (parse_ipv6_to_bytes ip) [
  | none ↦ true
  | some bytes ↦ is_blocked_bytes bytes
]

-- isBlockedAddress, over `isIP`.
unfoldable pub is_blocked_address : (List ℕ → ℕ) → List ℕ → Bool
unfolding is_blocked_ipv4 is_blocked_ipv6
is_blocked_address is_ip address =
    if is_ip address == 4
    then is_blocked_ipv4 address
    else if is_ip address == 6
    then is_blocked_ipv6 address
    else true

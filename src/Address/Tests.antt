-- ===== src/Address/Tests.antt =====
-- The range check at concrete addresses.
use vellar_facilitator.Base.{◌≡◌, refl, true, false, [], ◌∷◌, arith}
use vellar_facilitator.Base.Text.{codes}
use vellar_facilitator.Address.{is_blocked_ipv4, is_blocked_ipv6}
use vellar_facilitator.Address.Ipv4.{
  is_blocked_octets, is_blocked_octets-eq-in_some_block, in_some_block, address_value,
  blocked_blocks,
}

metadata_blocked : is_blocked_ipv4 (codes "169.254.169.254") ≡ true
unfolding is_blocked_ipv4
metadata_blocked = refl

public_passes : is_blocked_ipv4 (codes "8.8.4.4") ≡ false
unfolding is_blocked_ipv4
public_passes = refl

mapped_blocked : is_blocked_ipv6 (codes "::FFFF:127.0.0.1") ≡ true
unfolding is_blocked_ipv6 is_blocked_octets
mapped_blocked = refl

public_ipv6_passes : is_blocked_ipv6 (codes "2606:4700::6810:85e5") ≡ false
unfolding is_blocked_ipv6
public_ipv6_passes = refl

in_block_example :
    is_blocked_octets (172 ∷ 20 ∷ 0 ∷ 1 ∷ [])
    ≡ in_some_block (address_value 172 20 0 1) blocked_blocks
in_block_example =
    is_blocked_octets-eq-in_some_block 172 20 0 1 (omega arith) (omega arith) (omega arith)
      (omega arith)

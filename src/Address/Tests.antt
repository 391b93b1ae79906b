-- ===== src/Address/Tests.antt =====
-- Some addresses.
use arctic_rss.Prelude.{◌≡◌, refl, true, false, [], ◌∷◌, any, codes, arith, split_at}
use arctic_rss.Address.Ipv4.{
  is_private_ipv4_address, private_octets, private_parts, parse_int, read_digits,
}
use arctic_rss.Address.Blocks.{within, number, reserved_blocks, private_octets-reserved_blocks}
use arctic_rss.Address.Ipv6.{is_private_groups, reserved_groups, bit_and}
use arctic_rss.Address.Groups.{prefix, reserved_blocks6, reserved_groups-reserved_blocks6}
use arctic_rss.Address.Mapped.{mapped_private}

metadata : is_private_ipv4_address (codes "169.254.169.254") ≡ true
unfolding is_private_ipv4_address private_parts parse_int private_octets read_digits split_at
metadata = refl

public : is_private_ipv4_address (codes "93.184.216.34") ≡ false
unfolding is_private_ipv4_address private_parts parse_int private_octets read_digits split_at
public = refl

unique_local : reserved_groups 0xfd12 0x3456 0 0 0 0 ≡ true
unfolding reserved_groups bit_and
unique_local = refl

private_octets-reserved_blocks_example :
    private_octets 169 254 169 ≡ any (within (number 169 254 169 254)) reserved_blocks
private_octets-reserved_blocks_example =
    private_octets-reserved_blocks 169 254 169 254 (omega arith) (omega arith) (omega arith)
      (omega arith)

reserved_groups-reserved_blocks6_example :
    reserved_groups 0xfd12 0x3456 0 0 0 0
    ≡ any (within (prefix 0xfd12 0x3456 0 0 0 0)) reserved_blocks6
reserved_groups-reserved_blocks6_example =
    reserved_groups-reserved_blocks6 0xfd12 0x3456 0 0 0 0 (omega arith) (omega arith) (omega arith)
      (omega arith) (omega arith) (omega arith)

mapped_private_example :
    is_private_groups (0 ∷ 0 ∷ 0 ∷ 0 ∷ 0 ∷ 65535 ∷ 43518 ∷ 43518 ∷ []) ≡ private_octets 169 254 169
mapped_private_example = mapped_private 43518 43518 (omega arith) (omega arith)

-- ===== src/Address/Groups.antt =====
-- The private addresses of version 6 as blocks of the number that their first six groups make.
use arctic_rss.Prelude.{
  ℕ, ◌+◌, ◌-◌, ◌*◌, ◌/◌, ◌^◌, ◌<◌, ◌≡◌, refl, List, [], ◌∷◌, ◌&&◌, ◌==◌, any, arith,
}
use arctic_rss.Address.Blocks.{Block, within, or_false}
use arctic_rss.Address.Ipv6.{bit_and, reserved_groups}

-- The number that the first six groups make, and the blocks that are not for public use.
abbrev pub prefix : ℕ → ℕ → ℕ → ℕ → ℕ → ℕ → ℕ
prefix a b c d e f = ((((a * 65536 + b) * 65536 + c) * 65536 + d) * 65536 + e) * 65536 + f

abbrev block6 : ℕ → ℕ → ℕ → ℕ → Block
block6 a b c bits = record { base = prefix a b c 0 0 0; size = 2 ^ (96 - bits) }

unfoldable pub reserved_blocks6 : List Block
reserved_blocks6 =
    block6 0xfc00 0 0 7
    ∷ block6 0xfe80 0 0 10
    ∷ block6 0xff00 0 0 8
    ∷ block6 0x2001 0x0db8 0 32
    ∷ block6 0x2001 0x0010 0 28
    ∷ block6 0x2001 0x0020 0 28
    ∷ block6 0x2002 0 0 16
    ∷ block6 0x64 0xff9b 0 96
    ∷ block6 0x64 0xff9b 1 48
    ∷ block6 0x100 0 0 64
    ∷ []

module _ (a b c d e f : ℕ) (ha : a < 65536) (hb : b < 65536) (hc : c < 65536) (hd : d < 65536)
    (he : e < 65536) (hf : f < 65536) where
  div_first : prefix a b c d e f / 2 ^ 80 ≡ a
  div_first = omega arith

  div_second : prefix a b c d e f / 2 ^ 64 ≡ a * 65536 + b
  div_second = omega arith

  div_third : prefix a b c d e f / 2 ^ 48 ≡ (a * 65536 + b) * 65536 + c
  div_third = omega arith

  div_fourth : prefix a b c d e f / 2 ^ 32 ≡ ((a * 65536 + b) * 65536 + c) * 65536 + d
  div_fourth = omega arith

  unique_local : within (prefix a b c d e f) (block6 0xfc00 0 0 7) ≡ (bit_and 16 a 65024 == 64512)
  unfolding bit_and
  unique_local = ground (arith, div_first)

  link_local : within (prefix a b c d e f) (block6 0xfe80 0 0 10) ≡ (bit_and 16 a 65472 == 65152)
  unfolding bit_and
  link_local = ground (arith, div_first)

  multicast6 : within (prefix a b c d e f) (block6 0xff00 0 0 8) ≡ (bit_and 16 a 65280 == 65280)
  unfolding bit_and
  multicast6 = ground (arith, div_first)

  one_group : (n : ℕ) → within (prefix a b c d e f) (block6 n 0 0 16) ≡ (a == n)
  one_group n = ground (arith, div_first)

  documentation :
      within (prefix a b c d e f) (block6 0x2001 0x0db8 0 32) ≡ (a == 0x2001 && b == 0x0db8)
  documentation = ground (arith, div_second)

  orchid :
      within (prefix a b c d e f) (block6 0x2001 0x0010 0 28)
      ≡ (a == 0x2001 && bit_and 16 b 65520 == 16)
  unfolding bit_and
  orchid = ground (arith, div_second)

  orchid2 :
      within (prefix a b c d e f) (block6 0x2001 0x0020 0 28)
      ≡ (a == 0x2001 && bit_and 16 b 65520 == 32)
  unfolding bit_and
  orchid2 = ground (arith, div_second)

  translated :
      within (prefix a b c d e f) (block6 0x64 0xff9b 0 96)
      ≡ (a == 0x64 && (b == 0xff9b && (c == 0 && (d == 0 && (e == 0 && f == 0)))))
  translated = ground arith

  local_translated :
      within (prefix a b c d e f) (block6 0x64 0xff9b 1 48) ≡ (a == 0x64 && (b == 0xff9b && c == 1))
  local_translated = ground (arith, div_third)

  discard_only :
      within (prefix a b c d e f) (block6 0x100 0 0 64)
      ≡ (a == 0x100 && (b == 0 && (c == 0 && d == 0)))
  discard_only = ground (arith, div_fourth)

  -- The tests on the first six groups of an address accept exactly the addresses of the reserved
  -- blocks.
  pub reserved_groups-reserved_blocks6 :
      reserved_groups a b c d e f ≡ any (within (prefix a b c d e f)) reserved_blocks6
  unfolding reserved_groups reserved_blocks6
  reserved_groups-reserved_blocks6 =
      rw
        (
          unique_local,
          link_local,
          multicast6,
          documentation,
          orchid,
          orchid2,
          one_group 0x2002,
          translated,
          local_translated,
          discard_only,
          or_false (a == 0x100 && (b == 0 && (c == 0 && d == 0))),
        )
        refl

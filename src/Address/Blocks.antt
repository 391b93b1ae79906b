-- ===== src/Address/Blocks.antt =====
-- The private addresses of version 4 as blocks of numbers.
use arctic_rss.Prelude.{
  ℕ, ◌+◌, ◌-◌, ◌*◌, ◌/◌, ◌^◌, ◌<◌, ◌≡◌, refl, Bool, true, false, List, [], ◌∷◌, ◌&&◌, ◌||◌, ◌==◌,
  leb, any, arith,
}
use arctic_rss.Address.Ipv4.{private_octets}

-- The number of an address, and a block: the addresses that agree with one in their first bits.
abbrev pub number : ℕ → ℕ → ℕ → ℕ → ℕ
number a b c d = ((a * 256 + b) * 256 + c) * 256 + d

pub record Block : Type 0 where
  pub base : ℕ
  pub size : ℕ

abbrev pub within : ℕ → Block → Bool
within n block = n / block.size == block.base / block.size

-- A block by its first address and the length of its prefix.
abbrev pub block : ℕ → ℕ → ℕ → ℕ → ℕ → Block
block a b c d bits = record { base = number a b c d; size = 2 ^ (32 - bits) }

-- The blocks that are not for public use.
unfoldable pub reserved_blocks : List Block
reserved_blocks =
    block 0 0 0 0 8
    ∷ block 10 0 0 0 8
    ∷ block 127 0 0 0 8
    ∷ block 224 0 0 0 3
    ∷ block 100 64 0 0 10
    ∷ block 169 254 0 0 16
    ∷ block 172 16 0 0 12
    ∷ block 192 0 0 0 24
    ∷ block 192 0 2 0 24
    ∷ block 192 88 99 0 24
    ∷ block 192 168 0 0 16
    ∷ block 198 18 0 0 15
    ∷ block 198 51 100 0 24
    ∷ block 203 0 113 0 24
    ∷ []

pub or_false : (x : Bool) → (x || false) ≡ x
or_false true = refl
or_false false = refl

div-first : (a b c d : ℕ) → b < 256 → c < 256 → d < 256 → number a b c d / 16777216 ≡ a
div-first a b c d hb hc hd = omega arith

div-second : (a b c d : ℕ) → c < 256 → d < 256 → number a b c d / 65536 ≡ a * 256 + b
div-second a b c d hc hd = omega arith

div-third : (a b c d : ℕ) → d < 256 → number a b c d / 256 ≡ (a * 256 + b) * 256 + c
div-third a b c d hd = omega arith

module _ (a b c d : ℕ) (ha : a < 256) (hb : b < 256) (hc : c < 256) (hd : d < 256) where
  first_octet : (n : ℕ) → within (number a b c d) (block n 0 0 0 8) ≡ (a == n)
  first_octet n =
      rw (div-first a b c d hb hc hd, div-first n 0 0 0 (omega arith) (omega arith) (omega arith))
        refl

  two_octets : (n m : ℕ) → m < 256 → within (number a b c d) (block n m 0 0 16) ≡ (a == n && b == m)
  two_octets n m hm =
      rw (div-second a b c d hc hd, div-second n m 0 0 (omega arith) (omega arith)) (ground arith)

  three_octets :
      (n m k : ℕ)
      → m < 256
      → k < 256
      → within (number a b c d) (block n m k 0 24) ≡ (a == n && (b == m && c == k))
  three_octets n m k hm hk =
      rw (div-third a b c d hd, div-third n m k 0 (omega arith)) (ground arith)

  multicast : within (number a b c d) (block 224 0 0 0 3) ≡ leb 224 a
  multicast = ground arith

  carrier : within (number a b c d) (block 100 64 0 0 10) ≡ (a == 100 && (leb 64 b && leb b 127))
  carrier = ground arith

  private_use : within (number a b c d) (block 172 16 0 0 12) ≡ (a == 172 && (leb 16 b && leb b 31))
  private_use = ground arith

  benchmark : within (number a b c d) (block 198 18 0 0 15) ≡ (a == 198 && (b == 18 || b == 19))
  benchmark = ground arith

  -- The tests on the octets of an address accept exactly the addresses of the reserved blocks.
  pub private_octets-reserved_blocks :
      private_octets a b c ≡ any (within (number a b c d)) reserved_blocks
  unfolding private_octets reserved_blocks
  private_octets-reserved_blocks =
      rw
        (
          first_octet 0,
          first_octet 10,
          first_octet 127,
          multicast,
          carrier,
          two_octets 169 254 (omega arith),
          private_use,
          three_octets 192 0 0 (omega arith) (omega arith),
          three_octets 192 0 2 (omega arith) (omega arith),
          three_octets 192 88 99 (omega arith) (omega arith),
          two_octets 192 168 (omega arith),
          benchmark,
          three_octets 198 51 100 (omega arith) (omega arith),
          three_octets 203 0 113 (omega arith) (omega arith),
          or_false (a == 203 && (b == 0 && c == 113)),
        )
        refl

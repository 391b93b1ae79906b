-- ===== src/Address/Mapped.antt =====
-- An address of version 4 inside one of version 6.
use arctic_rss.Prelude.{
  ℕ, ◌/◌, ◌%◌, ◌<◌, ◌≡◌, refl, true, some, [], ◌∷◌, ◌++◌, ◌==◌, all, split_at, split_at-append,
  split_at-whole, arith, not,
}
use arctic_rss.Address.Ipv4.{
  is_private_ipv4_address, private_octets, private_parts, parse_int, read_digits,
}
use arctic_rss.Address.Ipv6.{decimal, dotted, is_private_groups}

decimal-undotted : (n : ℕ) → n < 256 → all (λ c. not (c == b'.')) (decimal n) ≡ true
unfolding decimal
decimal-undotted n h = ground arith

parse_int-decimal : (n : ℕ) → n < 256 → parse_int (decimal n) ≡ some n
unfolding parse_int decimal read_digits
parse_int-decimal n h = ground arith

-- The text of four octets is private exactly if they are.
private-dotted :
    (a b c d : ℕ)
    → a < 256
    → b < 256
    → c < 256
    → d < 256
    → is_private_ipv4_address (dotted a b c d) ≡ private_octets a b c
unfolding is_private_ipv4_address dotted private_parts
private-dotted a b c d ha hb hc hd =
    let parts : split_at b'.' (dotted a b c d)
        ≡ decimal a ∷ decimal b ∷ decimal c ∷ decimal d ∷ [] =
      rw
        (
          split_at-append b'.' (decimal a) (decimal b ++ b'.' ∷ (decimal c ++ b'.' ∷ decimal d))
              (decimal-undotted a ha),
          split_at-append b'.' (decimal b) (decimal c ++ b'.' ∷ decimal d) (decimal-undotted b hb),
          split_at-append b'.' (decimal c) (decimal d) (decimal-undotted c hc),
          split_at-whole b'.' (decimal d) (decimal-undotted d hd),
        )
        refl in
    rw
      (
        parts,
        parse_int-decimal a ha,
        parse_int-decimal b hb,
        parse_int-decimal c hc,
        parse_int-decimal d hd,
      )
      (ground arith)

-- An address of version 4 that is written as one of version 6 is private exactly if the address of
-- version 4 is.
pub mapped_private :
    (g h : ℕ)
    → g < 65536
    → h < 65536
    → is_private_groups (0 ∷ 0 ∷ 0 ∷ 0 ∷ 0 ∷ 65535 ∷ g ∷ h ∷ [])
      ≡ private_octets (g / 256) (g % 256) (h / 256)
unfolding is_private_groups
mapped_private g h hg hh =
    private-dotted (g / 256) (g % 256) (h / 256) (h % 256) (omega arith) (omega arith) (omega arith)
      (omega arith)

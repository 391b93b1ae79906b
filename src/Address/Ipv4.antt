-- ===== src/Address/Ipv4.antt =====
-- The private addresses of version 4 (isPrivateIpv4Address in src/lib/url-safety.ts). It is called on
-- texts that `isIP` accepts and on numbers joined by dots, so a part has digits only, and `parseInt`
-- has neither a space nor a sign to skip.
use arctic_rss.Prelude.{
  ℕ, ◌+◌, ◌-◌, ◌*◌, Bool, true, Option, none, some, List, [], ◌∷◌, ◌&&◌, ◌||◌, ◌==◌, leb,
  if◌then◌else◌, map, Text, is_digit, split_at,
}

abbrev pub value : Option ℕ → ℕ
value none = 0
value (some n) = n

-- The number of the leading digits after those read, or nothing (`NaN`) where there are none.
unfoldable pub read_digits : Option ℕ → Text → Option ℕ
read_digits acc [] = acc
read_digits acc (c ∷ s) =
    let rest = read_digits (some (value acc * 10 + (c - b'0'))) s in
    if is_digit c then rest else acc

unfoldable pub parse_int : Text → Option ℕ
unfolding read_digits
parse_int = read_digits none

unfoldable pub private_octets : ℕ → ℕ → ℕ → Bool
private_octets first second third =
    first == 0
    || (first == 10
        || (first == 127
            || (leb 224 first
                || ((first == 100 && (leb 64 second && leb second 127))
                    || ((first == 169 && second == 254)
                        || ((first == 172 && (leb 16 second && leb second 31))
                            || ((first == 192 && (second == 0 && third == 0))
                                || ((first == 192 && (second == 0 && third == 2))
                                    || ((first == 192 && (second == 88 && third == 99))
                                        || ((first == 192 && second == 168)
                                            || ((first == 198 && (second == 18 || second == 19))
                                                || ((first == 198 && (second == 51 && third == 100))
                                                    || (first == 203
                                                        && (second == 0
                                                            && third == 113))))))))))))))

-- Anything but four numbers up to 255 is unsafe.
unfoldable pub private_parts : List (Option ℕ) → Bool
unfolding private_octets
private_parts (some a ∷ some b ∷ some c ∷ some d ∷ []) =
    if leb a 255 && (leb b 255 && (leb c 255 && leb d 255)) then private_octets a b c else true
private_parts _ = true

unfoldable pub is_private_ipv4_address : Text → Bool
unfolding private_parts parse_int
is_private_ipv4_address address = private_parts (map parse_int (split_at b'.' address))

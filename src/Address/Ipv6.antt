-- ===== src/Address/Ipv6.antt =====
-- The private addresses of version 6, by their eight groups (isPrivateIpv6Address in
-- src/lib/url-safety.ts). Groups are numbers below 65536, as parseIpv6Hextets returns them.
use arctic_rss.Prelude.{
  ℕ, zero, suc, ◌+◌, ◌*◌, ◌/◌, ◌%◌, Bool, true, List, [], ◌∷◌, ◌++◌, ◌&&◌, ◌||◌, ◌==◌, ltb,
  if◌then◌else◌, all, take, Text,
}
use arctic_rss.Address.Ipv4.{is_private_ipv4_address}

-- `&` on numbers of `w` bits.
unfoldable pub bit_and : ℕ → ℕ → ℕ → ℕ
bit_and zero a b = 0
bit_and (suc w) a b = (a % 2) * (b % 2) + 2 * bit_and w (a / 2) (b / 2)

abbrev pub digit : ℕ → ℕ
digit n = b'0' + n

-- The decimal text of a number below 1000.
unfoldable pub decimal : ℕ → Text
decimal n =
    if ltb n 10
    then digit n ∷ []
    else if ltb n 100
    then digit (n / 10) ∷ digit (n % 10) ∷ []
    else digit (n / 100) ∷ digit (n / 10 % 10) ∷ digit (n % 10) ∷ []

-- `join(".")` of four numbers.
unfoldable pub dotted : ℕ → ℕ → ℕ → ℕ → Text
unfolding decimal
dotted a b c d = decimal a ++ b'.' ∷ (decimal b ++ b'.' ∷ (decimal c ++ b'.' ∷ decimal d))

abbrev are_zero : List ℕ → Bool
are_zero gs = all (λ g. g == 0) gs

-- The tests on the masks of the first groups.
unfoldable pub reserved_groups : ℕ → ℕ → ℕ → ℕ → ℕ → ℕ → Bool
unfolding bit_and
reserved_groups first second third fourth fifth sixth =
    bit_and 16 first 65024 == 64512
    || (bit_and 16 first 65472 == 65152
        || (bit_and 16 first 65280 == 65280
            || ((first == 8193 && second == 3512)
                || ((first == 8193 && bit_and 16 second 65520 == 16)
                    || ((first == 8193 && bit_and 16 second 65520 == 32)
                        || (first == 8194
                            || ((first == 100
                                  && (second == 65435
                                      && (third == 0
                                          && (fourth == 0 && (fifth == 0 && sixth == 0)))))
                                || ((first == 100 && (second == 65435 && third == 1))
                                    || (first == 256
                                        && (second == 0 && (third == 0 && fourth == 0)))))))))))

-- Anything but eight groups is unsafe.
unfoldable pub is_private_groups : List ℕ → Bool
unfolding dotted reserved_groups
is_private_groups (first ∷ second ∷ third ∷ fourth ∷ fifth ∷ sixth ∷ seventh ∷ eighth ∷ []) =
    let six = first ∷ second ∷ third ∷ fourth ∷ fifth ∷ sixth ∷ [] in
    if are_zero (six ++ seventh ∷ eighth ∷ [])
      || ((are_zero (six ++ seventh ∷ []) && eighth == 1) || are_zero six)
    then true
    else if are_zero (take 5 six) && sixth == 65535
    then is_private_ipv4_address
        (dotted (seventh / 256) (seventh % 256) (eighth / 256) (eighth % 256))
    else reserved_groups first second third fourth fifth sixth
is_private_groups _ = true

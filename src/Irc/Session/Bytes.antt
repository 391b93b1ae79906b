-- ===== src/Irc/Session/Bytes.antt =====
-- A part of a text takes no more bytes than the text.
use arctic_rss.Prelude.{
  ℕ, ◌≤◌, ◌≡◌, inl, inr, some, [], ◌∷◌, ◌++◌, Text, byte_length, arith, Option-cases,
}
use arctic_rss.Irc.Session.{cut_crlf}

byte_length-cons : (c : ℕ) (s : Text) → byte_length s ≤ byte_length (c ∷ s)
unfolding byte_length
byte_length-cons c [] = omega arith
byte_length-cons c (d ∷ s) = ground arith

byte_length-positive : (c : ℕ) (s : Text) → 1 ≤ byte_length (c ∷ s)
unfolding byte_length
byte_length-positive c [] = ground arith
byte_length-positive c (d ∷ s) = let l = byte_length-positive d s in ground (arith, l)

pub byte_length-left : (x y : Text) → byte_length x ≤ byte_length (x ++ y)
unfolding byte_length
byte_length-left [] y = omega arith
byte_length-left (c ∷ []) [] = omega arith
byte_length-left (c ∷ []) (d ∷ y) = let l = byte_length-positive d y in ground (arith, l)
byte_length-left (c ∷ d ∷ x) y = let l = byte_length-left (d ∷ x) y in ground (arith, l)

byte_length-right : (x y : Text) → byte_length y ≤ byte_length (x ++ y)
byte_length-right [] y = omega arith
byte_length-right (c ∷ x) y =
    let l = byte_length-right x y in omega (arith, l, byte_length-cons c (x ++ y))

pub cut_crlf-bytes :
    (x y line rest : Text)
    → cut_crlf x ≡ some (line, rest)
    → byte_length (rest ++ y) ≤ byte_length (x ++ y)
unfolding cut_crlf
cut_crlf-bytes [] y line rest h = cc
cut_crlf-bytes (c ∷ []) y line rest h = cc
cut_crlf-bytes (c ∷ d ∷ s) y line rest h =
    let first = byte_length-cons c (d ∷ s ++ y) in
    let second = byte_length-cons d (s ++ y) in
    elim (Option-cases (cut_crlf (d ∷ s))) [
      | inl n ↦ ground (arith, h, first, second)
      | inr ((before, after), e) ↦
          let later = cut_crlf-bytes (d ∷ s) y before after e in
          ground (arith, h, first, second, later)
    ]

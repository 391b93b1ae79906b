-- ===== src/Irc/Session/Cutting.antt =====
-- The first line of a buffer.
use arctic_rss.Prelude.{
  ◌+◌, ◌≤◌, ◌≡◌, refl, inl, inr, false, some, [], ◌∷◌, ◌++◌, any, length, Text, arith, Option-cases,
}
use arctic_rss.Irc.Protocol.{lf, crlf, is_line_end}
use arctic_rss.Irc.Session.{cut_crlf}

-- What comes after the first line end does not move it.
pub cut_crlf-append :
    (x y line rest : Text)
    → cut_crlf x ≡ some (line, rest)
    → cut_crlf (x ++ y) ≡ some (line, rest ++ y)
unfolding cut_crlf
cut_crlf-append [] y line rest h = cc
cut_crlf-append (c ∷ []) y line rest h = cc
cut_crlf-append (c ∷ d ∷ s) y line rest h = elim (Option-cases (cut_crlf (d ∷ s))) [
  | inl n ↦ elim (Option-cases (cut_crlf (d ∷ (s ++ y)))) [
    | inl m ↦ ground (arith, h, n, m)
    | inr ((before, after), m) ↦ ground (arith, h, n, m)
  ]
  | inr ((before, after), e) ↦
      let later = cut_crlf-append (d ∷ s) y before after e in ground (arith, h, e, later)
]

-- A line end takes two characters.
pub cut_crlf-length :
    (x line rest : Text) → cut_crlf x ≡ some (line, rest) → length rest + 2 ≤ length x
unfolding cut_crlf
cut_crlf-length [] line rest h = cc
cut_crlf-length (c ∷ []) line rest h = cc
cut_crlf-length (c ∷ d ∷ s) line rest h = elim (Option-cases (cut_crlf (d ∷ s))) [
  | inl n ↦ ground (arith, h)
  | inr ((before, after), e) ↦ ground (arith, h, cut_crlf-length (d ∷ s) before after e)
]

-- A text without line ends is the first line before a line end.
pub cut_crlf-line :
    (s rest : Text) → any is_line_end s ≡ false → cut_crlf (s ++ crlf ++ rest) ≡ some (s, rest)
unfolding cut_crlf
cut_crlf-line [] rest h = elim (Option-cases (cut_crlf (lf ∷ rest))) [
  | inl m ↦ ground (arith, m)
  | inr ((b, a), m) ↦ ground (arith, m)
]
cut_crlf-line (c ∷ []) rest h = let later = cut_crlf-line [] rest refl in ground (arith, h, later)
cut_crlf-line (c ∷ d ∷ s) rest h = ground (arith, h, cut_crlf-line (d ∷ s) rest)

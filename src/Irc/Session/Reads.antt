-- ===== src/Irc/Session/Reads.antt =====
-- The loop over the lines of a buffer, as a relation.
use arctic_rss.Prelude.{
  ℕ, zero, suc, ◌≤◌, ◌≡◌, refl, ap, inl, inr, false, none, some, List, [], ◌∷◌, ◌++◌, length, Text,
  byte_length, arith, Option-cases,
}
use arctic_rss.Irc.Session.{Output, cut_crlf, receive_line, receive_lines}
use arctic_rss.Irc.Session.Cutting.{cut_crlf-append, cut_crlf-length}
use arctic_rss.Irc.Session.Bytes.{cut_crlf-bytes}

pub append_assoc {ℓ} : {A : Type ℓ} (x y z : List A) → (x ++ y) ++ z ≡ x ++ (y ++ z)
append_assoc [] y z = refl
append_assoc (a ∷ x) y z = ap (λ s. a ∷ s) (append_assoc x y z)

pub cut_crlf-nil : cut_crlf [] ≡ none
unfolding cut_crlf
cut_crlf-nil = refl

module _ (to_upper_case : Text → Text) where
  -- A buffer, what its lines put out, and the buffer left.
  pub data Reads : Text → List Output → Text → Type 0 where
    stops : {x : Text} → cut_crlf x ≡ none → Reads x [] x
    line_then :
        {x line rest left : Text} {o : List Output}
        → cut_crlf x ≡ some (line, rest)
        → Reads rest o left
        → Reads x (receive_line to_upper_case false line ++ o) left

  -- With fuel for every character, the loop reads the buffer to its end.
  pub receive_lines-Reads :
      (n : ℕ) (x : Text)
      → length x ≤ n
      → Reads x (receive_lines to_upper_case n false x).0 (receive_lines to_upper_case n false x).1
  unfolding receive_lines
  receive_lines-Reads zero [] h = stops cut_crlf-nil
  receive_lines-Reads zero (c ∷ x) h = absurd (omega (arith, h))
  receive_lines-Reads (suc n) x h = elim (Option-cases (cut_crlf x)) [
    | inl e ↦ rw (receive_lines, e) (stops e)
    | inr ((line, rest), e) ↦
        let l = cut_crlf-length x line rest e in
        rw (receive_lines, e) (line_then e (receive_lines-Reads n rest (omega (arith, l, h))))
  ]

  -- What is read of a buffer is what the loop returns for it.
  pub Reads-receive_lines :
      (n : ℕ) (x : Text) (o : List Output) (left : Text)
      → Reads x o left
      → length x ≤ n
      → receive_lines to_upper_case n false x ≡ (o, left)
  unfolding receive_lines
  Reads-receive_lines zero x _ _ (stops e) h = refl
  Reads-receive_lines (suc n) x _ _ (stops e) h = rw (receive_lines, e) refl
  Reads-receive_lines (suc n) x _ left (line_then {line = line} {rest = rest} {o = o} e later) h =
      let l = cut_crlf-length x line rest e in
      let whole = Reads-receive_lines n rest o left later (omega (arith, l, h)) in
      rw (receive_lines, e, whole) refl
  Reads-receive_lines zero x _ left (line_then {line = line} {rest = rest} {o = o} e later) h =
      absurd (omega (arith, h, cut_crlf-length x line rest e))

  pub Reads-append :
      (x y left end : Text) (o p : List Output)
      → Reads x o left
      → Reads (left ++ y) p end
      → Reads (x ++ y) (o ++ p) end
  Reads-append x y _ end _ p (stops e) after = after
  Reads-append x y left end _ p (line_then {line = line} {rest = rest} {o = o} e later) after =
      let whole =
        line_then (cut_crlf-append x y line rest e)
          (Reads-append rest y left end o p later after) in
      rw (append_assoc (receive_line to_upper_case false line) o p) whole

  pub Reads-bytes :
      (x y left : Text) (o : List Output)
      → Reads x o left
      → byte_length (left ++ y) ≤ byte_length (x ++ y)
  Reads-bytes x y _ _ (stops e) = omega arith
  Reads-bytes x y left _ (line_then {line = line} {rest = rest} {o = o} e later) =
      let l = Reads-bytes rest y left o later in omega (arith, l, cut_crlf-bytes x y line rest e)

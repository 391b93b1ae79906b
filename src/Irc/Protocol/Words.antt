-- ===== src/Irc/Protocol/Words.antt =====
-- Words of a line, and the text that joins them.
use arctic_rss.Prelude.{
  ℕ, ◌+◌, ◌≡◌, refl, Bool, true, Option, none, some, List, [], ◌∷◌, ◌++◌, ◌||◌, not, ◌==◌, all, any,
  Text, is_space, byte_length, arith,
}
use arctic_rss.Irc.Protocol.{
  is_middle_char, is_middle, is_command_char, crlf, cut_at, first_word, join_words, trailing_words,
}

-- A text with a space before it, unless it is empty.
abbrev pub spaced : Text → Text
spaced [] = []
spaced (c ∷ s) = b' ' ∷ c ∷ s

-- What follows the command.
abbrev pub tail : List Text → Option Text → Text
tail [] none = []
tail [] (some t) = b':' ∷ t
tail (p ∷ ps) t = p ++ spaced (tail ps t)

abbrev has_no_space : Text → Bool
has_no_space s = all (λ c. not (c == b' ')) s

cut_at-append :
    (first rest : Text)
    → has_no_space first ≡ true
    → cut_at b' ' (first ++ b' ' ∷ rest) ≡ some (first, rest)
unfolding cut_at
cut_at-append [] rest h = ground arith
cut_at-append (c ∷ first) rest h = ground (arith, cut_at-append first rest)

cut_at-none : (first : Text) → has_no_space first ≡ true → cut_at b' ' first ≡ none
unfolding cut_at
cut_at-none [] h = refl
cut_at-none (c ∷ first) h = ground (arith, cut_at-none first)

append_nil : (s : Text) → s ++ [] ≡ s
append_nil [] = refl
append_nil (c ∷ s) = ground (arith, append_nil s)

pub first_word-spaced :
    (first u : Text) → has_no_space first ≡ true → first_word (first ++ spaced u) ≡ (first, u)
unfolding first_word
first_word-spaced first [] h = rw (append_nil first) (ground (arith, cut_at-none first h))
first_word-spaced first (c ∷ u) h = ground (arith, cut_at-append first (c ∷ u) h)

pub middle-has_no_space : (s : Text) → all is_middle_char s ≡ true → has_no_space s ≡ true
unfolding is_space
middle-has_no_space [] h = refl
middle-has_no_space (c ∷ s) h = ground (arith, middle-has_no_space s)

pub command-has_no_space : (s : Text) → all is_command_char s ≡ true → has_no_space s ≡ true
command-has_no_space [] h = refl
command-has_no_space (c ∷ s) h = ground (arith, command-has_no_space s)

pub join_words-tail :
    (first : Text) (params : List Text) (trailing : Option Text)
    → all is_middle params ≡ true
    → join_words first (params ++ trailing_words trailing) ≡ first ++ spaced (tail params trailing)
unfolding join_words is_middle
join_words-tail first [] none h = rw (append_nil first) refl
join_words-tail first [] (some t) h = refl
join_words-tail first ([] ∷ ps) t h = cc
join_words-tail first ((c ∷ p) ∷ ps) t h =
    let rest = join_words-tail (c ∷ p) ps t (ground (arith, h)) in rw rest refl

pub any-append : (test : ℕ → Bool) (s t : Text) → any test (s ++ t) ≡ (any test s || any test t)
any-append test [] t = refl
any-append test (c ∷ s) t = ground (arith, any-append test s t)

pub byte_length-crlf : (s : Text) → byte_length (s ++ crlf) ≡ byte_length s + 2
unfolding byte_length
byte_length-crlf [] = refl
byte_length-crlf (c ∷ []) = ground arith
byte_length-crlf (c ∷ d ∷ s) = ground (arith, byte_length-crlf (d ∷ s))

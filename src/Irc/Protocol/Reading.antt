-- ===== src/Irc/Protocol/Reading.antt =====
-- The loop over the parameters reads what the words say.
use arctic_rss.Prelude.{
  ℕ, zero, suc, ◌≤◌, ◌≡◌, refl, true, false, Option, none, some, List, [], ◌∷◌, ◌++◌, ◌==◌, all,
  length, Text, is_space, trim_start, arith,
}
use arctic_rss.Irc.Protocol.{valid, is_middle_char, is_middle, read_params}
use arctic_rss.Irc.Protocol.Words.{spaced, tail, first_word-spaced, middle-has_no_space}

-- A cursor that a parameter or a trailing text begins stays whole.
pub trim_start-tail :
    (params : List Text) (trailing : Option Text)
    → all is_middle params ≡ true
    → trim_start (tail params trailing) ≡ tail params trailing
unfolding trim_start is_middle is_space
trim_start-tail [] none h = refl
trim_start-tail [] (some t) h = ground arith
trim_start-tail ([] ∷ ps) t h = cc
trim_start-tail ((c ∷ p) ∷ ps) t h = ground (arith, h)

length-spaced : (p u : Text) → length u ≤ length (p ++ spaced u)
length-spaced [] [] = omega arith
length-spaced [] (c ∷ u) = omega arith
length-spaced (d ∷ p) u = let l = length-spaced p u in omega (arith, l)

-- With fuel for every character, the loop returns the parameters and the trailing text.
pub read_params-tail :
    (fuel : ℕ) (params : List Text) (trailing : Option Text)
    → all is_middle params ≡ true
    → length (tail params trailing) ≤ fuel
    → read_params fuel (tail params trailing) ≡ valid (params, trailing)
unfolding read_params is_middle
read_params-tail zero [] none h l = refl
read_params-tail (suc fuel) [] none h l = refl
read_params-tail zero [] (some t) h l = absurd (omega (arith, l))
read_params-tail (suc fuel) [] (some t) h l = ground arith
read_params-tail fuel ([] ∷ ps) t h l = cc
read_params-tail zero ((c ∷ p) ∷ ps) t h l = absurd (omega (arith, l))
read_params-tail (suc fuel) ((c ∷ p) ∷ ps) t h l =
    let chars : all is_middle_char (c ∷ p) ≡ true = ground (arith, h) in
    let more : all is_middle ps ≡ true = ground (arith, h) in
    let word = first_word-spaced (c ∷ p) (tail ps t) (middle-has_no_space (c ∷ p) chars) in
    let short : length (tail ps t) ≤ fuel = omega (arith, l, length-spaced p (tail ps t)) in
    let later = read_params-tail fuel ps t more short in
    let whole = trim_start-tail ps t more in
    let colon : (c == b':') ≡ false = ground (arith, chars) in
    rw (colon, word, whole, later) (ground (arith, chars))

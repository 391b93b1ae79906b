-- ===== src/Prelude/Texts.antt =====
-- Texts as lists of code units, where the program looks into them, with the tests it makes.
use Prim.Native.Nat.{ℕ}
use Prim.Native.Char.{code}
use Prim.Native.String.{String}
use mathlib.Core.Path.{◌≡◌, refl}
use mathlib.Core.Bool.{not, Bool, true, false, ◌&&◌}
use mathlib.Core.List.{List, [], ◌∷◌, ◌++◌}
use native.Mathlib.Omega.{arith}
use arctic_rss.Prelude.Lists.{all}
use arctic_rss.Prelude.Tests.{leb, ◌==◌, if◌then◌else◌}

abbrev pub Text : Type 0
Text = List ℕ

-- A literal of the source.
abbrev pub codes : String → Text
codes String.[] = []
codes (String.◌∷◌ c s) = code c ∷ codes s

unfoldable pub text_eq : Text → Text → Bool
text_eq [] [] = true
text_eq (a ∷ s) (b ∷ t) = a == b && text_eq s t
text_eq _ _ = false

pub text_eq_refl : (s : Text) → text_eq s s ≡ true
unfolding text_eq
text_eq_refl [] = refl
text_eq_refl (a ∷ s) = ground (arith, text_eq_refl s)

pub text_eq_sound : (s t : Text) → text_eq s t ≡ true → s ≡ t
unfolding text_eq
text_eq_sound [] [] h = refl
text_eq_sound [] (b ∷ t) h = cc
text_eq_sound (a ∷ s) [] h = cc
text_eq_sound (a ∷ s) (b ∷ t) h = ground (arith, text_eq_sound s t)

-- The classes of characters of the program's patterns.
abbrev pub is_lower : ℕ → Bool
is_lower c = leb b'a' c && leb c b'z'

abbrev pub is_upper : ℕ → Bool
is_upper c = leb b'A' c && leb c b'Z'

abbrev pub is_digit : ℕ → Bool
is_digit c = leb b'0' c && leb c b'9'

cons_head : ℕ → List Text → List Text
cons_head c [] = (c ∷ []) ∷ []
cons_head c (p ∷ parts) = (c ∷ p) ∷ parts

-- `split` at one character.
unfoldable pub split_at : ℕ → Text → List Text
unfolding cons_head
split_at mark [] = [] ∷ []
split_at mark (c ∷ s) =
    let rest = split_at mark s in if c == mark then [] ∷ rest else cons_head c rest

-- Up to the first occurrence of the character, the parts of a text are one part.
pub split_at-append :
    (mark : ℕ) (s t : Text)
    → all (λ c. not (c == mark)) s ≡ true
    → split_at mark (s ++ mark ∷ t) ≡ s ∷ split_at mark t
unfolding split_at cons_head
split_at-append mark [] t h = ground arith
split_at-append mark (c ∷ s) t h = ground (arith, split_at-append mark s t)

pub split_at-whole :
    (mark : ℕ) (s : Text) → all (λ c. not (c == mark)) s ≡ true → split_at mark s ≡ s ∷ []
unfolding split_at cons_head
split_at-whole mark [] h = refl
split_at-whole mark (c ∷ s) h = ground (arith, split_at-whole mark s)

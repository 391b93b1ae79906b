-- ===== src/Prelude/Spaces.antt =====
-- White space and the encoded length of texts: `trim`, the class `\s` of patterns, and
-- `Buffer.byteLength(text, "utf8")`.
use Prim.Native.Nat.{ℕ, ◌+◌}
use mathlib.Core.Bool.{Bool, ◌&&◌, ◌||◌}
use mathlib.Core.List.{[], ◌∷◌}
use arctic_rss.Prelude.Lists.{any}
use arctic_rss.Prelude.Tests.{leb, ◌==◌, if◌then◌else◌}
use arctic_rss.Prelude.Texts.{Text}

unfoldable pub is_space : ℕ → Bool
is_space c =
    (leb 9 c && leb c 13)
    || (any (λ s. c == s) (32 ∷ 160 ∷ 5760 ∷ 8232 ∷ 8233 ∷ 8239 ∷ 8287 ∷ 12288 ∷ 65279 ∷ [])
        || (leb 8192 c && leb c 8202))

unfoldable pub trim_start : Text → Text
trim_start [] = []
trim_start (c ∷ s) = let rest = trim_start s in if is_space c then rest else c ∷ s

unfoldable pub trim_end : Text → Text
trim_end [] = []
trim_end (c ∷ s) = elim (trim_end s) [
  | [] ↦ if is_space c then [] else c ∷ []
  | d ∷ rest ↦ c ∷ d ∷ rest
]

unfoldable pub trim : Text → Text
unfolding trim_start trim_end
trim s = trim_end (trim_start s)

-- A surrogate that stands alone is replaced by a character of three bytes.
abbrev is_high : ℕ → Bool
is_high c = leb 55296 c && leb c 56319

abbrev is_low : ℕ → Bool
is_low c = leb 56320 c && leb c 57343

abbrev unit_length : ℕ → ℕ
unit_length c = if leb c 127 then 1 else if leb c 2047 then 2 else 3

unfoldable pub byte_length : Text → ℕ
byte_length [] = 0
byte_length (c ∷ []) = unit_length c
byte_length (c ∷ d ∷ s) =
    let rest = byte_length (d ∷ s) in
    if is_high c && is_low d then rest + 1 else unit_length c + rest

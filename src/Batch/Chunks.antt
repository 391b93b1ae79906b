-- ===== src/Batch/Chunks.antt =====
-- The chunks of a list are the list, and none is empty or too long.
use arctic_rss.Prelude.{
  ℕ, zero, suc, max, ◌≤◌, ◌≡◌, refl, ap, ◌∙◌, List, [], ◌∷◌, ◌++◌, length, take, All, arith,
}
use arctic_rss.Batch.{Item, drop, chunks_from, chunk}

abbrev pub concat : List (List Item) → List Item
concat [] = []
concat (xs ∷ xss) = xs ++ concat xss

take-drop : (n : ℕ) (xs : List Item) → take n xs ++ drop n xs ≡ xs
unfolding drop
take-drop zero xs = refl
take-drop (suc n) [] = refl
take-drop (suc n) (x ∷ xs) = ap (λ ys. x ∷ ys) (take-drop n xs)

length-drop : (n : ℕ) (xs : List Item) → length (drop n xs) ≤ length xs
unfolding drop
length-drop zero xs = omega arith
length-drop (suc n) [] = omega arith
length-drop (suc n) (x ∷ xs) = let l = length-drop n xs in omega (arith, l)

length-take : (n : ℕ) (xs : List Item) → length (take n xs) ≤ n
length-take zero xs = omega arith
length-take (suc n) [] = omega arith
length-take (suc n) (x ∷ xs) = let l = length-take n xs in omega (arith, l)

concat-chunks_from :
    (fuel n : ℕ) (xs : List Item) → length xs ≤ fuel → concat (chunks_from fuel (suc n) xs) ≡ xs
unfolding chunks_from drop
concat-chunks_from zero n [] l = refl
concat-chunks_from zero n (x ∷ xs) l = absurd (omega (arith, l))
concat-chunks_from (suc fuel) n [] l = refl
concat-chunks_from (suc fuel) n (x ∷ xs) l =
    let rest = concat-chunks_from fuel n (drop n xs) (omega (arith, l, length-drop n xs)) in
    ap (λ ys. x ∷ (take n xs ++ ys)) rest ∙ ap (λ ys. x ∷ ys) (take-drop n xs)

-- At least one item, and at most n.
abbrev pub IsBatch : ℕ → List Item → Type 0
IsBatch n xs = (1 ≤ length xs) × (length xs ≤ n)

chunks_from-IsBatch :
    (fuel n : ℕ) (xs : List Item) → All (IsBatch (suc n)) (chunks_from fuel (suc n) xs)
unfolding chunks_from drop
chunks_from-IsBatch zero n xs = tt
chunks_from-IsBatch (suc fuel) n [] = tt
chunks_from-IsBatch (suc fuel) n (x ∷ xs) =
    ((omega arith, omega (arith, length-take n xs)), chunks_from-IsBatch fuel n (drop n xs))

max_is_suc : (size : ℕ) → (n : ℕ) × (max 1 size ≡ suc n)
max_is_suc zero = (0, omega arith)
max_is_suc (suc n) = (n, omega arith)

pub concat-chunk : (xs : List Item) (size : ℕ) → concat (chunk xs size) ≡ xs
unfolding chunk
concat-chunk xs size =
    let (n, e) = max_is_suc size in rw e (concat-chunks_from (length xs) n xs (omega arith))

pub chunk-IsBatch : (xs : List Item) (size : ℕ) → All (IsBatch (max 1 size)) (chunk xs size)
unfolding chunk
chunk-IsBatch xs size = let (n, e) = max_is_suc size in rw e (chunks_from-IsBatch (length xs) n xs)

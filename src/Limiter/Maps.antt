-- ===== src/Limiter/Maps.antt =====
-- Numbers in lists without repetition, and entries of maps.
use arctic_rss.Prelude.{
  ℕ, suc, ◌≡◌, refl, subst, sym, branch, inl, inr, Bool, true, false, List, [], ◌∷◌, ◌++◌, ◌&&◌,
  ◌||◌, not, ◌==◌, any, length, Text, text_eq, text_eq_refl, text_eq_sound, arith, Bool-cases,
}
use arctic_rss.Limiter.{put, put_host, remove}

abbrev pub has : ℕ → List ℕ → Bool
has t xs = any (λ x. x == t) xs

abbrev pub distinct : List ℕ → Bool
distinct [] = true
distinct (x ∷ xs) = not (has x xs) && distinct xs

pub has-remove : (s t : ℕ) (xs : List ℕ) → has s (remove t xs) ≡ (has s xs && not (s == t))
has-remove s t [] = refl
has-remove s t (x ∷ xs) = ground (arith, has-remove s t xs)

remove-absent : (t : ℕ) (xs : List ℕ) → has t xs ≡ false → remove t xs ≡ xs
remove-absent t [] h = refl
remove-absent t (x ∷ xs) h = ground (arith, h, remove-absent t xs)

pub length-remove :
    (t : ℕ) (xs : List ℕ)
    → distinct xs ≡ true
    → has t xs ≡ true
    → suc (length (remove t xs)) ≡ length xs
length-remove t [] d h = cc
length-remove t (x ∷ xs) d h = elim (Bool-cases (x == t)) [
  | inl same ↦
      let x_t : x ≡ t = ground (arith, same) in
      let new : has t xs ≡ false = ground (arith, x_t, d) in
      ground (arith, same, remove-absent t xs new)
  | inr other ↦ ground (arith, other, d, h, length-remove t xs)
]

pub distinct-remove : (t : ℕ) (xs : List ℕ) → distinct xs ≡ true → distinct (remove t xs) ≡ true
distinct-remove t [] d = refl
distinct-remove t (x ∷ xs) d = ground (arith, d, distinct-remove t xs, has-remove x t xs)

pub has-append : (t : ℕ) (xs ys : List ℕ) → has t (xs ++ ys) ≡ (has t xs || has t ys)
has-append t [] ys = refl
has-append t (x ∷ xs) ys = ground (arith, has-append t xs ys)

pub distinct-append :
    (xs : List ℕ) (t : ℕ) → distinct xs ≡ true → has t xs ≡ false → distinct (xs ++ t ∷ []) ≡ true
distinct-append [] t d h = refl
distinct-append (x ∷ xs) t d h =
    ground (arith, d, h, distinct-append xs t, has-append x xs (t ∷ []))

module _ {ℓ} {A : Type ℓ} where
  pub put_host-same : (key : Text) (a : A) (f : Text → A) → put_host key a f key ≡ a
  put_host-same key a f = rw (text_eq_refl key) refl

  pub put-same : (key : ℕ) (a : A) (f : ℕ → A) → put key a f key ≡ a
  put-same key a f = ground arith

-- What holds of the entry that is written and of all others holds of every entry.
pub put_host-all {ℓ κ} :
    {A : Type ℓ} (P : Text → A → Type κ) (key : Text) (a : A) (f : Text → A)
    → P key a
    → ((h : Text) → text_eq h key ≡ false → P h (f h))
    → (h : Text) → P h (put_host key a f h)
put_host-all P key a f here there h =
    branch (P h) (text_eq h key) (λ same. subst (λ k. P k a) (sym (text_eq_sound h key same)) here)
      (λ other. there h other)

pub put-all {ℓ κ} :
    {A : Type ℓ} (P : ℕ → A → Type κ) (key : ℕ) (a : A) (f : ℕ → A)
    → P key a
    → ((n : ℕ) → (n == key) ≡ false → P n (f n))
    → (n : ℕ) → P n (put key a f n)
put-all P key a f here there n =
    branch (P n) (n == key)
      (λ same. let e : n ≡ key = ground (arith, same) in subst (λ k. P k a) (sym e) here)
      (λ other. there n other)

-- The same for two maps with the same key.
pub both_put-all {ℓ κ μ} :
    {A : Type ℓ} {B : Type κ} (P : ℕ → A → B → Type μ) (key : ℕ) (a : A) (b : B) (f : ℕ → A)
    (g : ℕ → B)
    → P key a b
    → ((n : ℕ) → (n == key) ≡ false → P n (f n) (g n))
    → (n : ℕ) → P n (put key a f n) (put key b g n)
both_put-all P key a b f g here there n = elim (Bool-cases (n == key)) [
  | inl same ↦
      let e : n ≡ key = ground (arith, same) in
      subst (λ k. P k (put key a f k) (put key b g k)) (sym e)
        (subst (λ x. P key x (put key b g key)) (sym (put-same key a f))
          (subst (λ y. P key a y) (sym (put-same key b g)) here))
  | inr other ↦
      let f_same : put key a f n ≡ f n = rw other refl in
      let g_same : put key b g n ≡ g n = rw other refl in
      subst (λ x. P n x (put key b g n)) (sym f_same)
        (subst (λ y. P n (f n) y) (sym g_same) (there n other))
]

pub put_host-twice {ℓ} :
    {A : Type ℓ} (key : Text) (a b : A) (f : Text → A) (h : Text)
    → put_host key a (put_host key b f) h ≡ put_host key a f h
put_host-twice key a b f h = elim (Bool-cases (text_eq h key)) [
  | inl same ↦ rw same refl
  | inr other ↦ rw other refl
]

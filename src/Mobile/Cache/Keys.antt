-- ===== src/Mobile/Cache/Keys.antt =====
-- The set of evicted keys, and how many entries it takes from the cache.
use arctic_rss.Prelude.{
  ℕ, ◌+◌, ◌≤◌, ◌≡◌, sym, true, false, inl, inr, List, [], ◌∷◌, ◌++◌, ◌||◌, length, keep, any, Text,
  text_eq, text_eq_refl, text_eq_sound, arith, branch, Bool-cases, subst, if◌then◌else◌,
}
use arctic_rss.Mobile.Cache.{CachedEntry, has, add, add_all, is_kept, has_key, evicted}

has-append : (k j : Text) (keys : List Text) → has k (keys ++ j ∷ []) ≡ has k keys || text_eq k j
has-append k j [] = ground arith
has-append k j (x ∷ keys) = ground (arith, has-append k j keys)

pub has-add : (k : Text) (keys : List Text) → has k (add k keys) ≡ true
unfolding add
has-add k keys =
    branch (λ ks. has k ks ≡ true) (has k keys) (λ h. h)
      (λ _. ground (arith, has-append k k keys, text_eq_refl k))

pub has-add_mono : (k j : Text) (keys : List Text) → has k keys ≡ true → has k (add j keys) ≡ true
unfolding add
has-add_mono k j keys h =
    branch (λ ks. has k ks ≡ true) (has j keys) (λ _. h)
      (λ _. ground (arith, has-append k j keys, h))

has-add_all_mono :
    (k : Text) (ks keys : List Text) → has k keys ≡ true → has k (add_all ks keys) ≡ true
unfolding add_all
has-add_all_mono k [] keys h = h
has-add_all_mono k (j ∷ ks) keys h = has-add_all_mono k ks (add j keys) (has-add_mono k j keys h)

pub has-add_all :
    (k : Text) (ks keys : List Text) → has k ks ≡ true → has k (add_all ks keys) ≡ true
unfolding add_all
has-add_all k [] keys h = absurd (ground (arith, h))
has-add_all k (j ∷ ks) keys h = elim (Bool-cases (text_eq k j)) [
  | inl same ↦
      has-add_all_mono k ks (add j keys)
        (subst (λ t. has t (add j keys) ≡ true) (sym (text_eq_sound k j same)) (has-add j keys))
  | inr other ↦ has-add_all k ks (add j keys) (ground (arith, h, other))
]

abbrev taken : Text → List CachedEntry → ℕ
taken k xs = if any (has_key k) xs then 1 else 0

evicted-append :
    (xs : List CachedEntry) (k : Text) (keys : List Text)
    → evicted xs (keys ++ k ∷ []) ≡ evicted xs keys + taken k xs
evicted-append xs k [] = ground arith
evicted-append xs k (j ∷ keys) = ground (arith, evicted-append xs k keys)

kept-append :
    (k : Text) (keys : List Text) (xs : List CachedEntry)
    → has k keys ≡ false
    → length (keep (is_kept (keys ++ k ∷ [])) xs) + taken k xs ≤ length (keep (is_kept keys) xs)
kept-append k keys [] free = omega arith
kept-append k keys (x ∷ xs) free =
    let rest = kept-append k keys xs free in
    let step = has-append x.key k keys in
    elim (Bool-cases (text_eq x.key k)) [
      | inl same ↦
          let free' = subst (λ t. has t keys ≡ false) (sym (text_eq_sound x.key k same)) free in
          ground (arith, rest, step, same, free')
      | inr other ↦ ground (arith, rest, step, other)
    ]

-- Every evicted key that the entries have takes at least one of them.
abbrev pub Counted : List CachedEntry → List Text → Type 0
Counted xs keys = length (keep (is_kept keys) xs) + evicted xs keys ≤ length xs

pub add-Counted :
    (xs : List CachedEntry) (k : Text) (keys : List Text)
    → Counted xs keys
    → Counted xs (add k keys)
unfolding add
add-Counted xs k keys c =
    branch (Counted xs) (has k keys) (λ _. c)
      (λ free. omega (arith, c, kept-append k keys xs free, evicted-append xs k keys))

pub add_all-Counted :
    (xs : List CachedEntry) (ks keys : List Text) → Counted xs keys → Counted xs (add_all ks keys)
unfolding add_all
add_all-Counted xs [] keys c = c
add_all-Counted xs (k ∷ ks) keys c = add_all-Counted xs ks (add k keys) (add-Counted xs k keys c)

-- ===== src/Mobile/Cache/Weights.antt =====
-- What the entries of the cache weigh that are left.
use arctic_rss.Prelude.{
  ℕ, ◌+◌, ◌≤◌, ◌≡◌, refl, sym, true, false, Bool, some, none, List, [], ◌∷◌, length, keep, arith,
  Bool-cases, inl, inr, ap, subst,
}
use arctic_rss.Mobile.Cache.{CachedEntry, insert, sort, weigh, find}

abbrev pub one : CachedEntry → ℕ
one e = 1

pub weigh-one : (xs : List CachedEntry) → weigh one xs ≡ length xs
weigh-one [] = refl
weigh-one (x ∷ xs) = ground (arith, weigh-one xs)

module _ (w : CachedEntry → ℕ) (p : CachedEntry → Bool) where
  weigh-insert :
      (e : CachedEntry) (xs : List CachedEntry)
      → weigh w (keep p (insert e xs)) ≡ weigh w (keep p (e ∷ xs))
  unfolding insert
  weigh-insert e [] = refl
  weigh-insert e (x ∷ xs) = ground (arith, weigh-insert e xs)

  pub weigh-sort : (xs : List CachedEntry) → weigh w (keep p (sort xs)) ≡ weigh w (keep p xs)
  unfolding sort
  weigh-sort [] = refl
  weigh-sort (x ∷ xs) = ground (arith, weigh-insert x (sort xs), weigh-sort xs)

  weigh-keep :
      (q : CachedEntry → Bool) (xs : List CachedEntry)
      → ((x : CachedEntry) → p x ≡ true → q x ≡ true)
      → weigh w (keep p xs) ≤ weigh w (keep q xs)
  weigh-keep q [] h = omega arith
  weigh-keep q (x ∷ xs) h = ground (arith, weigh-keep q xs h, h x)

pub weigh-found :
    (w : CachedEntry → ℕ) (p q : CachedEntry → Bool) (xs : List CachedEntry) (o : CachedEntry)
    → ((x : CachedEntry) → q x ≡ true → p x ≡ true)
    → q o ≡ false
    → find p xs ≡ some o
    → weigh w (keep q xs) + w o ≤ weigh w (keep p xs)
weigh-found w p q [] o h gone e = absurd (ground (arith, e))
weigh-found w p q (x ∷ xs) o h gone e = elim (Bool-cases (p x)) [
  | inl here ↦
      let x_o : x ≡ o = ground (arith, e, here) in
      let gone' = subst (λ y. q y ≡ false) (sym x_o) gone in
      let rest = weigh-keep w q p xs h in
      let same = ap w x_o in ground (arith, here, gone', rest, same)
  | inr not_here ↦
      let e' : find p xs ≡ some o = ground (arith, e, not_here) in
      let rest = weigh-found w p q xs o h gone e' in ground (arith, not_here, h x, rest)
]

pub find-none : (p : CachedEntry → Bool) (xs : List CachedEntry) → find p xs ≡ none → keep p xs ≡ []
find-none p [] e = refl
find-none p (x ∷ xs) e = ground (arith, find-none p xs, e)

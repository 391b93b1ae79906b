-- ===== src/Mobile/Cache/Limits.antt =====
-- The cache after the eviction of the selected entries.
use arctic_rss.Prelude.{
  ℕ, zero, suc, ◌+◌, ◌-◌, ◌≤◌, ◌≡◌, refl, sym, subst, true, false, Bool, inl, inr, none, some, List,
  [], ◌∷◌, length, keep, Text, arith, Bool-cases, Option-cases,
}
use arctic_rss.Mobile.Cache.{
  OfflineLimits, CachedEntry, has, add, weigh, find, is_kept, over_limits, evict_oldest,
}
use arctic_rss.Mobile.Cache.Weights.{one, weigh-one, weigh-found, find-none}
use arctic_rss.Mobile.Cache.Keys.{has-add, has-add_mono, Counted, add-Counted}

abbrev bytes : List CachedEntry → ℕ
bytes xs = weigh (λ e. e.byte_count) xs

abbrev pub left : List Text → List CachedEntry → List CachedEntry
left evictions entries = keep (is_kept evictions) entries

-- As many entries and bytes as the limits allow.
pub record IsWithin (limits : OfflineLimits) (entries : List CachedEntry) : Type 0 where
  pub entries_le : length entries ≤ limits.maximum_cached_entries
  pub bytes_le : weigh (λ e. e.byte_count) entries ≤ limits.maximum_cache_bytes

empty-IsWithin :
    (limits : OfflineLimits) (entries : List CachedEntry) → entries ≡ [] → IsWithin limits entries
empty-IsWithin limits entries e =
    subst (IsWithin limits) (sym e) (record { entries_le = omega arith; bytes_le = omega arith })

length_nil : (xs : List CachedEntry) → length xs ≤ 0 → xs ≡ []
length_nil [] h = refl
length_nil (x ∷ xs) h = absurd (omega (arith, h))

-- A round of the loop takes the entry that it found from those that are left.
weigh-round :
    (w : CachedEntry → ℕ) (xs : List CachedEntry) (keys : List Text) (o : CachedEntry)
    → find (is_kept keys) xs ≡ some o
    → weigh w (left (add o.key keys) xs) + w o ≤ weigh w (left keys xs)
weigh-round w xs keys o e =
    weigh-found w (is_kept keys) (is_kept (add o.key keys)) xs o
      (λ x h. elim (Bool-cases (has x.key keys)) [
        | inl old ↦ absurd (ground (arith, h, has-add_mono x.key o.key keys old))
        | inr free ↦ ground (arith, free)
      ])
      (ground (arith, has-add o.key keys)) e

length-round :
    (xs : List CachedEntry) (keys : List Text) (o : CachedEntry)
    → find (is_kept keys) xs ≡ some o
    → suc (length (left (add o.key keys) xs)) ≤ length (left keys xs)
length-round xs keys o e = omega (
  arith,
  weigh-round one xs keys o e,
  weigh-one (left (add o.key keys) xs),
  weigh-one (left keys xs),
)

module _ (limits : OfflineLimits) (xs : List CachedEntry) where
  over_limits-IsWithin :
      (keys : List Text) (total : ℕ)
      → Counted xs keys
      → bytes (left keys xs) ≤ total
      → over_limits limits xs keys total ≡ false
      → IsWithin limits (left keys xs)
  unfolding over_limits
  over_limits-IsWithin keys total c b e = record {
    entries_le = ground (arith, c, e);
    bytes_le = ground (arith, b, e);
  }

  pub evict_oldest-IsWithin :
      (fuel : ℕ) (keys : List Text) (total : ℕ)
      → Counted xs keys
      → bytes (left keys xs) ≤ total
      → length (left keys xs) ≤ fuel
      → IsWithin limits (left (evict_oldest limits xs fuel keys total) xs)
  unfolding evict_oldest
  evict_oldest-IsWithin zero keys total c b enough =
      empty-IsWithin limits (left keys xs) (length_nil (left keys xs) enough)
  evict_oldest-IsWithin (suc fuel) keys total c b enough =
      elim (Bool-cases (over_limits limits xs keys total)) [
        | inr e ↦ rw (evict_oldest, e) (over_limits-IsWithin keys total c b e)
        | inl e ↦ elim (Option-cases (find (is_kept keys) xs)) [
          | inl none_left ↦
              rw (evict_oldest, e, none_left)
                (empty-IsWithin limits (left keys xs) (find-none (is_kept keys) xs none_left))
          | inr (o, found) ↦
              rw (evict_oldest, e, found)
                (evict_oldest-IsWithin fuel (add o.key keys) (total - o.byte_count)
                  (add-Counted xs o.key keys c)
                  (omega
                    (arith, weigh-round (λ (x : CachedEntry). x.byte_count) xs keys o found, b))
                  (omega (arith, length-round xs keys o found, enough)))
        ]
      ]

  pub has-evict_oldest :
      (k : Text) (fuel : ℕ) (keys : List Text) (total : ℕ)
      → has k keys ≡ true
      → has k (evict_oldest limits xs fuel keys total) ≡ true
  unfolding evict_oldest
  has-evict_oldest k zero keys total h = h
  has-evict_oldest k (suc fuel) keys total h =
      elim (Bool-cases (over_limits limits xs keys total)) [
        | inr e ↦ rw (evict_oldest, e) h
        | inl e ↦ elim (Option-cases (find (is_kept keys) xs)) [
          | inl none_left ↦ rw (evict_oldest, e, none_left) h
          | inr (o, found) ↦
              rw (evict_oldest, e, found)
                (has-evict_oldest k fuel (add o.key keys) (total - o.byte_count)
                  (has-add_mono k o.key keys h))
        ]
      ]

find-nothing : (p : CachedEntry → Bool) (xs : List CachedEntry) → keep p xs ≡ [] → find p xs ≡ none
find-nothing p [] e = refl
find-nothing p (x ∷ xs) e = elim (Bool-cases (p x)) [
  | inl here ↦ absurd (ground (arith, e, here))
  | inr other ↦ ground (arith, other, find-nothing p xs, e)
]

module _ (limits : OfflineLimits) (xs : List CachedEntry) where
  evict_oldest-spent :
      (extra : ℕ) (keys : List Text) (total : ℕ)
      → left keys xs ≡ []
      → evict_oldest limits xs extra keys total ≡ keys
  unfolding evict_oldest
  evict_oldest-spent zero keys total e = refl
  evict_oldest-spent (suc extra) keys total e =
      elim (Bool-cases (over_limits limits xs keys total)) [
        | inr within ↦ rw (evict_oldest, within) refl
        | inl over ↦ rw (evict_oldest, over, find-nothing (is_kept keys) xs e) refl
      ]

  -- With a round for every entry that is left, the loop has ended: more fuel gives the same keys.
  pub evict_oldest-fuel :
      (fuel more : ℕ) (keys : List Text) (total : ℕ)
      → length (left keys xs) ≤ fuel
      → fuel ≤ more
      → evict_oldest limits xs more keys total ≡ evict_oldest limits xs fuel keys total
  unfolding evict_oldest
  evict_oldest-fuel zero more keys total enough le =
      evict_oldest-spent more keys total (length_nil (left keys xs) enough)
  evict_oldest-fuel (suc fuel) zero keys total enough le = absurd (omega (arith, le))
  evict_oldest-fuel (suc fuel) (suc more) keys total enough le =
      elim (Bool-cases (over_limits limits xs keys total)) [
        | inr e ↦ rw (evict_oldest, e) refl
        | inl e ↦ elim (Option-cases (find (is_kept keys) xs)) [
          | inl none_left ↦ rw (evict_oldest, e, none_left) refl
          | inr (o, found) ↦
              rw (evict_oldest, e, found)
                (evict_oldest-fuel fuel more (add o.key keys) (total - o.byte_count)
                  (omega (arith, length-round xs keys o found, enough)) (omega (arith, le)))
        ]
      ]

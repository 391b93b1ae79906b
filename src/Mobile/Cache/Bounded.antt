-- ===== src/Mobile/Cache/Bounded.antt =====
-- What the eviction leaves of the whole cache.
use arctic_rss.Prelude.{
  ℕ, ◌≤◌, ◌≡◌, refl, sym, ◌∙◌, true, false, inl, inr, List, [], ◌∷◌, not, length, keep, map, any,
  Text, text_eq_refl, arith, Bool-cases,
}
use arctic_rss.Mobile.Cache.{
  OfflineLimits, CachedEntry, is_expired, has, weigh, is_kept, evict_oldest, retained_entries,
  expired_keys, select_mobile_cache_evictions,
}
use arctic_rss.Mobile.Cache.Weights.{one, weigh-one, weigh-sort}
use arctic_rss.Mobile.Cache.Keys.{has-add_all, add_all-Counted}
use arctic_rss.Mobile.Cache.Limits.{
  left, IsWithin, evict_oldest-IsWithin, has-evict_oldest, evict_oldest-fuel,
}

module _ (limits : OfflineLimits) (now : ℕ) where
  abbrev keys_of_expired : List CachedEntry → List Text
  keys_of_expired xs = map (λ e. e.key) (keep (is_expired limits now) xs)

  abbrev AllEvicted : List Text → List CachedEntry → Type 0
  AllEvicted keys xs = (k : Text) → has k (keys_of_expired xs) ≡ true → has k keys ≡ true

  expired-has :
      (keys : List Text) (x : CachedEntry) (xs : List CachedEntry)
      → AllEvicted keys (x ∷ xs)
      → is_expired limits now x ≡ true
      → has x.key keys ≡ true
  expired-has keys x xs h e = h x.key (ground (arith, e, text_eq_refl x.key))

  rest-AllEvicted :
      (keys : List Text) (x : CachedEntry) (xs : List CachedEntry)
      → AllEvicted keys (x ∷ xs)
      → AllEvicted keys xs
  rest-AllEvicted keys x xs h k e = elim (Bool-cases (is_expired limits now x)) [
    | inl old ↦ h k (ground (arith, e, old))
    | inr fresh ↦ h k (ground (arith, e, fresh))
  ]

  weigh-fresh :
      (w : CachedEntry → ℕ) (keys : List Text) (xs : List CachedEntry)
      → AllEvicted keys xs
      → weigh w (left keys (keep (λ e. not (is_expired limits now e)) xs)) ≡ weigh w (left keys xs)
  weigh-fresh w keys [] h = refl
  weigh-fresh w keys (x ∷ xs) h =
      let rest = weigh-fresh w keys xs (rest-AllEvicted keys x xs h) in
      elim (Bool-cases (is_expired limits now x)) [
        | inl old ↦ ground (arith, rest, old, expired-has keys x xs h old)
        | inr fresh ↦ ground (arith, rest, fresh)
      ]

  left-fresh :
      (keys : List Text) (xs : List CachedEntry)
      → AllEvicted keys xs
      → any (is_expired limits now) (left keys xs) ≡ false
  left-fresh keys [] h = refl
  left-fresh keys (x ∷ xs) h =
      let rest = left-fresh keys xs (rest-AllEvicted keys x xs h) in
      elim (Bool-cases (is_expired limits now x)) [
        | inl old ↦ ground (arith, rest, old, expired-has keys x xs h old)
        | inr fresh ↦ ground (arith, rest, fresh)
      ]

  weigh-retained :
      (w : CachedEntry → ℕ) (keys : List Text) (entries : List CachedEntry)
      → AllEvicted keys entries
      → weigh w (left keys (retained_entries limits now entries)) ≡ weigh w (left keys entries)
  weigh-retained w keys entries h =
      weigh-sort w (is_kept keys) (keep (λ e. not (is_expired limits now e)) entries)
      ∙ weigh-fresh w keys entries h

  length-retained :
      (keys : List Text) (entries : List CachedEntry)
      → AllEvicted keys entries
      → length (left keys (retained_entries limits now entries)) ≡ length (left keys entries)
  length-retained keys entries h =
      sym (weigh-one (left keys (retained_entries limits now entries)))
      ∙ weigh-retained one keys entries h
      ∙ weigh-one (left keys entries)

  retained-IsWithin :
      (keys : List Text) (entries : List CachedEntry)
      → AllEvicted keys entries
      → IsWithin limits (left keys (retained_entries limits now entries))
      → IsWithin limits (left keys entries)
  retained-IsWithin keys entries h fits = record {
    entries_le = omega (arith, fits.entries_le, length-retained keys entries h);
    bytes_le = omega (arith, fits.bytes_le, weigh-retained (λ e. e.byte_count) keys entries h);
  }

weigh-left :
    (w : CachedEntry → ℕ) (keys : List Text) (xs : List CachedEntry)
    → weigh w (left keys xs) ≤ weigh w xs
weigh-left w keys [] = omega arith
weigh-left w keys (x ∷ xs) = ground (arith, weigh-left w keys xs)

length-left : (keys : List Text) (xs : List CachedEntry) → length (left keys xs) ≤ length xs
length-left keys xs = omega (arith, weigh-left one keys xs, weigh-one xs, weigh-one (left keys xs))

no_keys-Counted : (xs : List CachedEntry) → length (left [] xs) ≤ length xs
no_keys-Counted xs = length-left [] xs

-- Whatever a cache holds, the entries whose keys the function does not name are at most
-- as many and at most as large as the limits allow, and none of them is expired; and more fuel than a
-- round for every retained entry gives the loop the same keys.
pub evictions-IsWithin :
    (entries : List CachedEntry) (now : ℕ) (limits : OfflineLimits) (more : ℕ)
    → length (retained_entries limits now entries) ≤ more
    → IsWithin limits (left (select_mobile_cache_evictions entries now limits) entries)
      × (any
            (is_expired limits now)
            (left (select_mobile_cache_evictions entries now limits) entries)
          ≡ false)
      × (evict_oldest limits
            (retained_entries limits now entries)
            more
            (expired_keys limits now entries)
            (weigh (λ e. e.byte_count) (retained_entries limits now entries))
          ≡ select_mobile_cache_evictions entries now limits)
unfolding select_mobile_cache_evictions
evictions-IsWithin entries now limits more le =
    let retained = retained_entries limits now entries in
    let expired = expired_keys limits now entries in
    let total = weigh (λ (e : CachedEntry). e.byte_count) retained in
    let gone : AllEvicted limits now (evict_oldest limits retained (length retained) expired total)
        entries =
      (λ k h.
        has-evict_oldest limits retained k (length retained) expired total
          (has-add_all k (keys_of_expired limits now entries) [] h)) in
    let fits =
      evict_oldest-IsWithin limits retained (length retained) expired total
        (add_all-Counted retained (keys_of_expired limits now entries) []
          (omega (arith, no_keys-Counted retained)))
        (weigh-left (λ e. e.byte_count) expired retained) (length-left expired retained) in
    let keys = evict_oldest limits retained (length retained) expired total in
    (
      retained-IsWithin limits now keys entries gone fits,
      left-fresh limits now keys entries gone,
      evict_oldest-fuel limits retained (length retained) more expired total
          (length-left expired retained) le,
    )

-- ===== src/Mobile/Cache.antt =====
-- Which entries of the mobile cache are evicted (selectMobileCacheEvictions in
-- packages/mobile-client/src/offline.ts). A set of keys is the list of them in the order of insertion.
pub mod Weights
pub mod Keys
pub mod Limits
pub mod Bounded
mod Tests
use arctic_rss.Prelude.{
  ℕ, zero, suc, ◌+◌, ◌-◌, ◌*◌, Bool, true, false, Option, none, some, List, [], ◌∷◌, ◌++◌, ◌||◌,
  not, ltb, if◌then◌else◌, length, keep, any, map, Text, text_eq,
}

-- The limits that the function reads, of `MobileOfflineLimits`.
pub record OfflineLimits : Type 0 where
  pub maximum_cache_bytes : ℕ
  pub maximum_cached_entries : ℕ
  pub maximum_entry_age_ms : ℕ

abbrev pub mobile_offline_limits : OfflineLimits
mobile_offline_limits = record {
  maximum_cache_bytes = 20 * 1024 * 1024;
  maximum_cached_entries = 300;
  maximum_entry_age_ms = 30 * 24 * 60 * 60 * 1000;
}

pub record CachedEntry : Type 0 where
  pub accessed_at : ℕ
  pub byte_count : ℕ
  pub key : Text
  pub updated_at : ℕ

-- An entry that was updated in the future has age 0 here and is not expired in either.
abbrev pub is_expired : OfflineLimits → ℕ → CachedEntry → Bool
is_expired limits now e = ltb limits.maximum_entry_age_ms (now - e.updated_at)

-- A stable sort by the time of access.
unfoldable pub insert : CachedEntry → List CachedEntry → List CachedEntry
insert e [] = e ∷ []
insert e (x ∷ xs) =
    let rest = insert e xs in if ltb x.accessed_at e.accessed_at then x ∷ rest else e ∷ x ∷ xs

unfoldable pub sort : List CachedEntry → List CachedEntry
unfolding insert
sort [] = []
sort (x ∷ xs) = insert x (sort xs)

abbrev pub has : Text → List Text → Bool
has k keys = any (text_eq k) keys

unfoldable pub add : Text → List Text → List Text
add k keys = if has k keys then keys else keys ++ k ∷ []

-- `new Set(keys)`, on top of the keys already there.
unfoldable pub add_all : List Text → List Text → List Text
unfolding add
add_all [] keys = keys
add_all (k ∷ ks) keys = add_all ks (add k keys)

abbrev pub weigh : (CachedEntry → ℕ) → List CachedEntry → ℕ
weigh w [] = 0
weigh w (x ∷ xs) = w x + weigh w xs

abbrev pub find : (CachedEntry → Bool) → List CachedEntry → Option CachedEntry
find p [] = none
find p (x ∷ xs) = if p x then some x else find p xs

abbrev pub is_kept : List Text → CachedEntry → Bool
is_kept evictions e = not (has e.key evictions)

abbrev pub has_key : Text → CachedEntry → Bool
has_key k e = text_eq e.key k

-- How many evicted keys are among the entries.
abbrev pub evicted : List CachedEntry → List Text → ℕ
evicted retained evictions = length (keep (λ k. any (has_key k) retained) evictions)

unfoldable pub over_limits : OfflineLimits → List CachedEntry → List Text → ℕ → Bool
over_limits limits retained evictions total_bytes =
    ltb limits.maximum_cached_entries (length retained - evicted retained evictions)
    || ltb limits.maximum_cache_bytes total_bytes

-- The loop, on fuel: a round evicts one more of the retained entries.
unfoldable pub evict_oldest : OfflineLimits → List CachedEntry → ℕ → List Text → ℕ → List Text
unfolding over_limits add
evict_oldest limits retained zero evictions total_bytes = evictions
evict_oldest limits retained (suc fuel) evictions total_bytes =
    elim (over_limits limits retained evictions total_bytes) [
      | false ↦ evictions
      | true ↦ elim (find (is_kept evictions) retained) [
        | none ↦ evictions
        | some oldest ↦
            evict_oldest limits retained fuel (add oldest.key evictions)
              (total_bytes - oldest.byte_count)
      ]
    ]

abbrev pub retained_entries : OfflineLimits → ℕ → List CachedEntry → List CachedEntry
retained_entries limits now entries = sort (keep (λ e. not (is_expired limits now e)) entries)

abbrev pub expired_keys : OfflineLimits → ℕ → List CachedEntry → List Text
expired_keys limits now entries =
    add_all (map (λ e. e.key) (keep (is_expired limits now) entries)) []

unfoldable pub select_mobile_cache_evictions : List CachedEntry → ℕ → OfflineLimits → List Text
unfolding evict_oldest
select_mobile_cache_evictions entries now limits =
    let retained = retained_entries limits now entries in
    evict_oldest limits retained (length retained) (expired_keys limits now entries)
      (weigh (λ e. e.byte_count) retained)

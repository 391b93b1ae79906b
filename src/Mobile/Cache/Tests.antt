-- ===== src/Mobile/Cache/Tests.antt =====
-- A cache of four entries, of which one is expired and one does not fit.
use arctic_rss.Prelude.{
  ℕ, ◌≤◌, ◌≡◌, refl, false, List, [], ◌∷◌, length, any, Text, text_eq, codes, arith,
}
use arctic_rss.Mobile.Cache.{
  OfflineLimits, mobile_offline_limits, CachedEntry, is_expired, insert, sort, add, add_all, weigh,
  over_limits, evict_oldest, retained_entries, expired_keys, select_mobile_cache_evictions,
}
use arctic_rss.Mobile.Cache.Limits.{left, IsWithin}
use arctic_rss.Mobile.Cache.Bounded.{evictions-IsWithin}

abbrev limits : OfflineLimits
limits = record {
  maximum_cache_bytes = 100;
  maximum_cached_entries = 2;
  maximum_entry_age_ms = 1000;
}

abbrev entry : ℕ → ℕ → Text → ℕ → CachedEntry
entry accessed bytes key updated = record {
  accessed_at = accessed;
  byte_count = bytes;
  key = key;
  updated_at = updated;
}

abbrev entries : List CachedEntry
entries =
    entry 1900 50 (codes "a") 1900
    ∷ entry 1700 40 (codes "b") 1500
    ∷ entry 1950 10 (codes "c") 400
    ∷ entry 1800 40 (codes "d") 1600
    ∷ []

runs : select_mobile_cache_evictions entries 2000 limits ≡ codes "c" ∷ codes "b" ∷ []
unfolding select_mobile_cache_evictions evict_oldest over_limits add_all add sort insert text_eq
runs = refl

keeps_all : select_mobile_cache_evictions entries 2000 mobile_offline_limits ≡ []
unfolding select_mobile_cache_evictions evict_oldest over_limits add_all add sort insert text_eq
keeps_all = refl

three_retained : length (retained_entries limits 2000 entries) ≤ 7
unfolding sort insert
three_retained = omega arith

evictions-IsWithin_example :
    IsWithin limits (left (select_mobile_cache_evictions entries 2000 limits) entries)
    × (any
          (is_expired limits 2000)
          (left (select_mobile_cache_evictions entries 2000 limits) entries)
        ≡ false)
    × (evict_oldest limits
          (retained_entries limits 2000 entries)
          7
          (expired_keys limits 2000 entries)
          (weigh (λ e. e.byte_count) (retained_entries limits 2000 entries))
        ≡ select_mobile_cache_evictions entries 2000 limits)
evictions-IsWithin_example = evictions-IsWithin entries 2000 limits 7 three_retained

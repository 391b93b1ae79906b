-- ===== src/Lease/Time.antt =====
-- The expiry of a lease, a function that each of the three lease modules has a copy of.
use arctic_rss.Prelude.{ℕ, ◌+◌, max}

-- A duration is a whole number of milliseconds here, so `Math.floor` is the identity.
unfoldable pub add_milliseconds : ℕ → ℕ → ℕ
add_milliseconds now duration_ms = now + max 1000 duration_ms

-- ===== src/Limiter/Tests.antt =====
-- Requests to two hosts, with one slot each.
use arctic_rss.Prelude.{◌≡◌, refl, true, false, none, some, List, [], ◌∷◌, Text, codes, text_eq}
use arctic_rss.Limiter.{
  Event, acquires, releases, aborts, new_limiter, on_events, normalize_hostname, without_last,
  acquire, release, on_abort, remember, forget, holding,
}
use arctic_rss.Limiter.Semaphore.{free, serves}
use arctic_rss.Limiter.Table.{Implements}
use arctic_rss.Limiter.Refinement.{on_events-Implements}
use arctic_rss.Limiter.Slots.{Slots, on_events-Slots}

-- `toLowerCase` on the names below.
abbrev same : Text → Text
same s = s

abbrev busy : List Event
busy =
    acquires (codes "a.example") false
    ∷ acquires (codes "a.example.") false
    ∷ acquires (codes "b.example") false
    ∷ acquires (codes "a.example") false
    ∷ aborts 1
    ∷ releases 0
    ∷ releases 0
    ∷ []

-- The last one that waits gets the slot.
granted : ((on_events same 1 busy new_limiter).requests 3).phase ≡ holding
unfolding acquire release on_abort remember forget normalize_hostname without_last text_eq
granted = refl

-- A request whose signal is aborted already leaves its host in the map.
aborted_remembered :
    (on_events same 1 (acquires (codes "a.example") true ∷ []) new_limiter).hosts
      (codes "a.example")
    ≡ some 0
unfolding acquire remember normalize_hostname without_last text_eq
aborted_remembered = refl

-- The release of the last slot takes the host out of the map.
forgotten :
    (on_events same 1 (acquires (codes "a.example") false ∷ releases 0 ∷ []) new_limiter).hosts
      (codes "a.example")
    ≡ none
unfolding acquire release remember forget normalize_hostname without_last text_eq
forgotten = refl

on_events-Implements_example :
    Implements (on_events same 1 busy new_limiter) (serves same 1 busy free)
on_events-Implements_example = on_events-Implements same 1 busy new_limiter refl

on_events-Slots_example : Slots 1 (on_events same 1 busy new_limiter) (codes "a.example")
on_events-Slots_example = on_events-Slots same 1 busy new_limiter (codes "a.example") refl

-- ===== src/Limiter/Refinement.antt =====
-- The limiter implements the semaphores.
use arctic_rss.Prelude.{ℕ, zero, suc, ◌≡◌, refl, subst, some, List, [], ◌∷◌, Text, arith}
use arctic_rss.Limiter.{
  Limiter, Event, acquires, releases, aborts, on_event, on_events, create_host_request_limiter,
  new_limiter,
}
use arctic_rss.Limiter.Semaphore.{Semaphores, serve, serves, free}
use arctic_rss.Limiter.Fairness.{free-AllFair, AllFair, serve-AllFair}
use arctic_rss.Limiter.Table.{Implements}
use arctic_rss.Limiter.Acquiring.{acquire-Implements}
use arctic_rss.Limiter.Releasing.{release-Implements}
use arctic_rss.Limiter.Aborting.{on_abort-Implements}

serve-Implements :
    (to_lower_case : Text → Text) (maximum : ℕ) (e : Event) (l : Limiter) (s : Semaphores)
    → Implements l s
    → AllFair maximum s
    → Implements (on_event to_lower_case maximum e l) (serve to_lower_case maximum e s)
serve-Implements to_lower_case maximum (acquires hostname aborted) l s i fair =
    acquire-Implements to_lower_case maximum l s hostname aborted i fair
serve-Implements to_lower_case maximum (releases t) l s i fair =
    release-Implements t maximum l s i fair
serve-Implements to_lower_case maximum (aborts t) l s i fair =
    on_abort-Implements t maximum l s i fair

pub create-Implements :
    (maximum : ℕ) (l : Limiter) → create_host_request_limiter maximum ≡ some l → Implements l free
create-Implements zero l e = cc
create-Implements (suc n) l e =
    let new : new_limiter ≡ l = ground (arith, e) in
    subst (λ x. Implements x free) new
      (record {
        fresh = refl;
        memory = λ h. refl;
        table = λ t. record { known = refl; holds = refl; waits = refl; placed = λ dead. cc };
        store = record {
          stored = λ h r k. cc;
          old = λ h r k. cc;
          absent = λ h k. refl;
          apart = λ h k r d d'. cc;
        };
      })

pub both_on_events :
    (to_lower_case : Text → Text) (maximum : ℕ) (es : List Event) (l : Limiter) (s : Semaphores)
    → Implements l s
    → AllFair maximum s
    → Implements (on_events to_lower_case maximum es l) (serves to_lower_case maximum es s)
      × AllFair maximum (serves to_lower_case maximum es s)
both_on_events to_lower_case maximum [] l s i fair = (i, fair)
both_on_events to_lower_case maximum (e ∷ es) l s i fair =
    both_on_events to_lower_case maximum es (on_event to_lower_case maximum e l)
      (serve to_lower_case maximum e s) (serve-Implements to_lower_case maximum e l s i fair)
      (serve-AllFair to_lower_case maximum e s fair)

-- A limiter that is created, and whatever is then acquired, released and aborted, implements the
-- semaphores: each request holds a slot or waits exactly if the semaphore of its host says so; the map
-- has exactly the hosts that are remembered, which a host is from a request on until a slot given back
-- or a place given up leaves nobody there; each has an object of its own with the number of the holders
-- and the queue; and the semaphores of the other hosts are free.
pub on_events-Implements :
    (to_lower_case : Text → Text) (maximum : ℕ) (es : List Event) (l : Limiter)
    → create_host_request_limiter maximum ≡ some l
    → Implements (on_events to_lower_case maximum es l) (serves to_lower_case maximum es free)
on_events-Implements to_lower_case maximum es l e =
    (both_on_events to_lower_case maximum es l free (create-Implements maximum l e)
      (free-AllFair maximum)).0

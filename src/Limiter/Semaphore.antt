-- ===== src/Limiter/Semaphore.antt =====
-- What the limiter promises: a fair semaphore for each host, as the list of its holders and the queue
-- of those that wait.
use arctic_rss.Prelude.{
  ℕ, ◌+◌, Bool, true, false, not, ◌&&◌, List, [], ◌∷◌, ◌++◌, if◌then◌else◌, ltb, length, Text,
}
use arctic_rss.Limiter.{
  put, put_host, remove, normalize_hostname, Event, acquires, releases, aborts,
}
use arctic_rss.Limiter.Maps.{has}

pub record Semaphore : Type 0 where
  pub holders : List ℕ
  pub queue : List ℕ

-- The semaphores, the host of each request, and the hosts that are remembered: a host is from a request
-- on until a slot that is given back, or a place that is given up, leaves its semaphore with nobody.
pub record Semaphores : Type 0 where
  pub of : Text → Semaphore
  pub host_of : ℕ → Text
  pub remembered : Text → Bool
  pub next_request : ℕ

abbrev pub free : Semaphores
free = record {
  of = λ h. record { holders = []; queue = [] };
  host_of = λ t. [];
  remembered = λ h. false;
  next_request = 0;
}

abbrev pub is_empty : List ℕ → Bool
is_empty [] = true
is_empty (t ∷ ts) = false

-- Somebody holds a slot or waits.
abbrev pub is_busy : Semaphore → Bool
is_busy s = not (is_empty s.holders && is_empty s.queue)

-- Another semaphore for a host, which is remembered only while somebody is there.
abbrev pub change : Text → Semaphore → Semaphores → Semaphores
change host v s = record s {
  of = put_host host v s.of;
  remembered = put_host host (is_busy v) s.remembered;
}

-- The first that waits gets the slot that is given back.
abbrev pub pass_on : List ℕ → List ℕ → Semaphore
pass_on holders [] = record { holders = holders; queue = [] }
pass_on holders (w ∷ ws) = record { holders = w ∷ holders; queue = ws }

abbrev pub admit : ℕ → ℕ → Bool → Semaphore → Semaphore
admit maximum t aborted s =
    if aborted
    then s
    else if ltb (length s.holders) maximum
    then record s { holders = t ∷ s.holders }
    else record s { queue = s.queue ++ t ∷ [] }

abbrev pub ask : ℕ → Text → Bool → Semaphores → Semaphores
ask maximum host aborted s = record {
  of = put_host host (admit maximum s.next_request aborted (s.of host)) s.of;
  host_of = put s.next_request host s.host_of;
  remembered = put_host host true s.remembered;
  next_request = s.next_request + 1;
}

abbrev pub give_back : ℕ → Semaphores → Semaphores
give_back t s =
    let host = s.host_of t in
    let here = s.of host in
    if has t here.holders then change host (pass_on (remove t here.holders) here.queue) s else s

abbrev pub give_up : ℕ → Semaphores → Semaphores
give_up t s =
    let host = s.host_of t in
    let here = s.of host in
    if has t here.queue then change host (record here { queue = remove t here.queue }) s else s

module _ (to_lower_case : Text → Text) (maximum : ℕ) where
  abbrev pub serve : Event → Semaphores → Semaphores
  serve (acquires hostname aborted) s =
      ask maximum (normalize_hostname to_lower_case hostname) aborted s
  serve (releases t) s = give_back t s
  serve (aborts t) s = give_up t s

  abbrev pub serves : List Event → Semaphores → Semaphores
  serves [] s = s
  serves (e ∷ es) s = serves es (serve e s)

-- ===== src/Limiter/Acquiring.antt =====
-- `acquire` implements the asking of a semaphore.
use arctic_rss.Prelude.{
  ℕ, ◌+◌, ◌≡◌, refl, ap, sym, ◌∙◌, inl, inr, Option-cases, Bool, true, false, some, [], ◌∷◌, ◌++◌,
  if◌then◌else◌, ltb, ◌==◌, length, Text, arith, Bool-cases,
}
use arctic_rss.Limiter.{
  HostState, Phase, waiting, holding, refused, Limiter, is_waiting, is_holding, put, put_host,
  set_state, new_request, remember, acquire, normalize_hostname,
}
use arctic_rss.Limiter.Maps.{has, has-append}
use arctic_rss.Limiter.Semaphore.{Semaphore, Semaphores, ask}
use arctic_rss.Limiter.Fairness.{IsFair, AllFair, fresh_holder, fresh_waiter}
use arctic_rss.Limiter.Store.{
  Stored, Store, set_state-Store, remember-known, remember-requests, remember-fresh, remember-kept,
  remember-Store, same-Store,
}
use arctic_rss.Limiter.Table.{Memory, put-Memory, Implements, kept-Table, new_request-Table}

remember-Memory :
    (l : Limiter) (remembered : Text → Bool) (host : Text)
    → Memory l.hosts remembered
    → Memory (remember host l).0.hosts (put_host host true remembered)
unfolding remember
remember-Memory l remembered host m = elim (Option-cases (l.hosts host)) [
  | inl e ↦ rw (remember, e) (put-Memory l.hosts remembered host (some l.next_state) m)
  | inr (r, e) ↦ rw (remember, e) (put-Memory l.hosts remembered host (some r) m)
]

-- What the first part of `acquire` leaves.
remember-Implements :
    (l : Limiter) (s : Semaphores) (host : Text)
    → Implements l s
    → Implements (remember host l).0 (record s { remembered = put_host host true s.remembered })
remember-Implements l s host i = record {
  fresh = remember-fresh l host ∙ i.fresh;
  table = rw (remember-requests l host) (
      kept-Table l.hosts (remember host l).0.hosts l.requests s.of s.host_of (remember-kept l host)
        i.table);
  store = remember-Store l host s.of i.store;
  memory = remember-Memory l s.remembered host i.memory;
}

-- The new request, with what it does to the semaphore of its host.
new_request-Implements :
    (l : Limiter) (s : Semaphores) (host : Text) (r : ℕ) (p : Phase) (states : ℕ → HostState)
    (v : Semaphore)
    → Implements l s
    → l.hosts host ≡ some r
    → is_holding p ≡ has s.next_request v.holders
    → is_waiting p ≡ has s.next_request v.queue
    → ((t : ℕ) → (t == s.next_request) ≡ false → has t v.holders ≡ has t (s.of host).holders)
    → ((t : ℕ) → (t == s.next_request) ≡ false → has t v.queue ≡ has t (s.of host).queue)
    → Store l.hosts states l.next_state (put_host host v s.of)
    → Implements (new_request host r p (record l { states = states })) (record {
      of = put_host host v s.of;
      host_of = put s.next_request host s.host_of;
      remembered = s.remembered;
      next_request = s.next_request + 1;
    })
new_request-Implements l s host r p states v i known holds waits same_holders same_queue store =
    record {
      fresh = ap (λ n. n + 1) i.fresh;
      table = rw i.fresh (
          new_request-Table l.hosts l.requests s.of s.host_of s.next_request host r p v i.table
            known holds waits same_holders same_queue);
      store = store;
      memory = i.memory;
    }

admit-Implements :
    (maximum : ℕ) (l : Limiter) (s : Semaphores) (host : Text) (r : ℕ) (aborted : Bool)
    → Implements l s
    → IsFair maximum s.next_request s.host_of host (s.of host)
    → l.hosts host ≡ some r
    → Implements
        (if aborted
          then new_request host r refused l
          else if ltb (l.states r).active maximum
          then new_request host r holding
              (set_state r (record (l.states r) { active = (l.states r).active + 1 }) l)
          else new_request host r waiting (
              set_state r
                (record (l.states r) { waiters = (l.states r).waiters ++ l.next_request ∷ [] })
                l))
        (record (ask maximum host aborted s) { remembered = s.remembered })
admit-Implements maximum l s host r true i fair known =
    let v = s.of host in
    let held = fresh_holder maximum s.next_request s.host_of host v fair in
    let queued = fresh_waiter maximum s.next_request s.host_of host v fair in
    new_request-Implements l s host r refused l.states v i known (sym held) (sym queued)
      (λ _ _. refl) (λ _ _. refl) (same-Store l.hosts l.states l.next_state s.of host i.store)
admit-Implements maximum l s host r false i fair known =
    let v = s.of host in
    let held = fresh_holder maximum s.next_request s.host_of host v fair in
    let queued = fresh_waiter maximum s.next_request s.host_of host v fair in
    let st = i.store.stored host r known in
    elim (Bool-cases (ltb (length v.holders) maximum)) [
      | inl slot ↦
          let w : Semaphore = record v { holders = s.next_request ∷ v.holders } in
          let state : HostState = record {
            active = length v.holders + 1;
            waiters = (l.states r).waiters;
          } in
          let stored : Stored state w = record { active = ground arith; waiters = st.waiters } in
          let store =
            set_state-Store l.hosts l.states l.next_state s.of host r state w i.store known
              stored in
          rw (st.active, slot)
            (new_request-Implements l s host r holding (put r state l.states) w i known
              (ground arith) (sym queued) (λ t other. ground (arith, other)) (λ _ _. refl) store)
      | inr busy ↦
          let w : Semaphore = record v { queue = v.queue ++ s.next_request ∷ [] } in
          let state : HostState = record {
            active = (l.states r).active;
            waiters = (l.states r).waiters ++ l.next_request ∷ [];
          } in
          let stored : Stored state w = record {
            active = st.active;
            waiters = rw (st.waiters, i.fresh) refl;
          } in
          let store =
            set_state-Store l.hosts l.states l.next_state s.of host r state w i.store known
              stored in
          let last = has-append s.next_request v.queue (s.next_request ∷ []) in
          let busy' : ltb (l.states r).active maximum ≡ false = rw st.active busy in
          rw (busy', busy)
            (new_request-Implements l s host r waiting (put r state l.states) w i known (sym held)
              (ground (arith, last)) (λ _ _. refl)
              (λ t other. ground (arith, other, has-append t v.queue (s.next_request ∷ []))) store)
    ]

-- `acquire` asks the semaphore.
pub acquire-Implements :
    (to_lower_case : Text → Text) (maximum : ℕ) (l : Limiter) (s : Semaphores) (hostname : Text)
    (aborted : Bool)
    → Implements l s
    → AllFair maximum s
    → Implements
        (acquire to_lower_case maximum hostname aborted l)
        (ask maximum (normalize_hostname to_lower_case hostname) aborted s)
unfolding acquire
acquire-Implements to_lower_case maximum l s hostname aborted i fair =
    let host = normalize_hostname to_lower_case hostname in
    admit-Implements maximum (remember host l).0
      (record s { remembered = put_host host true s.remembered }) host (remember host l).1 aborted
      (remember-Implements l s host i) (fair host) (remember-known l host)

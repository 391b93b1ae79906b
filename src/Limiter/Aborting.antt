-- ===== src/Limiter/Aborting.antt =====
-- The map may forget a host, and the abort listener implements the giving up.
use arctic_rss.Prelude.{
  Bool, List, [], ◌∷◌, ◌&&◌, not, length, ◌==◌, ℕ, ◌≡◌, refl, ap, sym, ◌∙◌, subst, inl, inr, true,
  false, Option, none, some, Text, text_eq, text_eq_sound, arith, branch, Bool-cases,
}
use arctic_rss.Limiter.{
  HostState, refused, Request, Limiter, is_idle, is_waiting, put_host, remove, set_state, set_phase,
  forget, on_abort,
}
use arctic_rss.Limiter.Maps.{has, has-remove, put_host-same}
use arctic_rss.Limiter.Semaphore.{Semaphore, Semaphores, is_empty, is_busy, change, give_up}
use arctic_rss.Limiter.Fairness.{AllFair}
use arctic_rss.Limiter.Store.{empty, idle-empty, Stored, Store, set_state-Store, forget-Store}
use arctic_rss.Limiter.Table.{put-Memory, known-Memory, Table, Implements, set_phase-Table}

-- No request needs a host whose semaphore is free.
unplaced-Table :
    (hosts : Text → Option ℕ) (requests : ℕ → Request) (of : Text → Semaphore) (host_of : ℕ → Text)
    (host : Text)
    → of host ≡ empty
    → Table hosts requests of host_of
    → Table (put_host host none hosts) requests of host_of
unplaced-Table hosts requests of host_of host nothing table t =
    let e = table t in
    record {
      known = e.known;
      holds = e.holds;
      waits = e.waits;
      placed = λ live.
          branch (λ x. x ≡ some (requests t).state) (text_eq (requests t).host host)
            (λ same.
              let here = sym e.known ∙ text_eq_sound (requests t).host host same in
              let nobody : of (host_of t) ≡ empty = subst (λ h. of h ≡ empty) (sym here) nothing in
              let not_held : has t (of (host_of t)).holders ≡ false =
                ap (λ (x : Semaphore). has t x.holders) nobody in
              let not_waiting : has t (of (host_of t)).queue ≡ false =
                ap (λ (x : Semaphore). has t x.queue) nobody in
              absurd (ground (arith, live, e.holds ∙ not_held, e.waits ∙ not_waiting)))
            (λ _. e.placed live);
    }

length-is_empty : (xs : List ℕ) → (length xs == 0) ≡ is_empty xs
length-is_empty [] = refl
length-is_empty (x ∷ xs) = ground arith

-- The object of a host is idle just if nobody is at its semaphore.
idle-is_busy :
    (state : HostState) (v : Semaphore) → Stored state v → is_busy v ≡ not (is_idle state)
idle-is_busy state v st = rw (st.active, st.waiters, length-is_empty v.holders) (queue v.queue)
  where
    queue :
        (q : List ℕ)
        → not (is_empty v.holders && is_empty q)
          ≡ not (is_empty v.holders && elim q as (λ x. Bool) [ [] ↦ true | _ ∷ _ ↦ false ])
    queue [] = refl
    queue (x ∷ xs) = refl

-- The map forgets a host just if nobody is at its semaphore.
pub forget-Implements :
    (l : Limiter) (s : Semaphores) (host : Text) (r : ℕ) (v : Semaphore)
    → Implements l s
    → l.hosts host ≡ some r
    → s.of host ≡ v
    → Implements
        (forget host r l)
        (record s { remembered = put_host host (is_busy v) s.remembered })
unfolding forget
forget-Implements l s host r v i known at_host =
    let st = subst (λ x. Stored (l.states r) x) at_host (i.store.stored host r known) in
    let busy = idle-is_busy (l.states r) v st in
    let s' : Semaphores = record s { remembered = put_host host (is_busy v) s.remembered } in
    elim (Bool-cases (is_idle (l.states r))) [
      | inl unused ↦
          let m : Limiter = record l { hosts = put_host host none l.hosts } in
          let eq : forget host r l ≡ m = rw (forget, unused) refl in
          let store =
            subst (λ (x : Limiter). Store x.hosts x.states x.next_state s.of) eq
              (forget-Store l s.of host r i.store known) in
          let nobody : is_busy v ≡ false = ground (arith, busy, unused) in
          let done : Implements m s' = record {
            fresh = i.fresh;
            table =
                unplaced-Table l.hosts l.requests s.of s.host_of host
                  (idle-empty (l.states r) (s.of host) (i.store.stored host r known) unused)
                  i.table;
            store = store;
            memory = rw nobody (put-Memory l.hosts s.remembered host none i.memory);
          } in
          subst (λ x. Implements x s') (sym eq) done
      | inr used ↦
          let eq : forget host r l ≡ l = rw (forget, used) refl in
          let somebody : is_busy v ≡ true = ground (arith, busy, used) in
          let done : Implements l s' = record {
            fresh = i.fresh;
            table = i.table;
            store = i.store;
            memory = rw somebody (known-Memory l.hosts s.remembered host r known i.memory);
          } in
          subst (λ x. Implements x s') (sym eq) done
    ]

-- A waiting request whose signal is aborted gives up its place.
pub on_abort-Implements :
    (t : ℕ) (maximum : ℕ) (l : Limiter) (s : Semaphores)
    → Implements l s
    → AllFair maximum s
    → Implements (on_abort t l) (give_up t s)
unfolding on_abort
on_abort-Implements t maximum l s i fair =
    let host = s.host_of t in
    let v = s.of host in
    let e = i.table t in
    elim (Bool-cases (has t v.queue)) [
      | inr absent ↦
          let idle : is_waiting (l.requests t).phase ≡ false = e.waits ∙ absent in
          rw (idle, absent) i
      | inl waits ↦
          let live : is_waiting (l.requests t).phase ≡ true = e.waits ∙ waits in
          let r = (l.requests t).state in
          let left : Semaphore = record v { queue = remove t v.queue } in
          let state : HostState = record (l.states r) { waiters = remove t (l.states r).waiters } in
          let placed = e.placed (ground (arith, live)) in
          let known : l.hosts host ≡ some r = subst (λ h. l.hosts h ≡ some r) e.known placed in
          let st = i.store.stored host r known in
          let stored : Stored state left = record {
            active = st.active;
            waiters = ap (λ q. remove t q) st.waiters;
          } in
          let gone : Implements (set_phase t refused (set_state r state l))
              (record s { of = put_host host left s.of }) =
            record {
              fresh = i.fresh;
              table =
                  set_phase-Table l.hosts l.requests s.of s.host_of t refused left i.table
                    (sym ((fair host).apart t waits)) (ground (arith, has-remove t t v.queue))
                    (λ dead. cc) (λ _ _. refl)
                    (λ x other. ground (arith, other, has-remove x t v.queue));
              store =
                  set_state-Store l.hosts l.states l.next_state s.of host r state left i.store known
                    stored;
              memory = i.memory;
            } in
          let l' = set_phase t refused (set_state r state l) in
          let s' : Semaphores = record s { of = put_host host left s.of } in
          let same = put_host-same host left s.of in
          rw (live, waits)
            (subst (λ h. Implements (forget h r l') (change host left s)) (sym e.known)
              (forget-Implements l' s' host r left gone known same))
    ]

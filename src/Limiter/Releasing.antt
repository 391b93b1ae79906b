-- ===== src/Limiter/Releasing.antt =====
-- The release implements the giving back.
use arctic_rss.Prelude.{
  ℕ, ◌+◌, ◌-◌, ◌≡◌, refl, ap, sym, ◌∙◌, subst, ◌⊎◌, inl, inr, true, false, some, List, [], ◌∷◌,
  Text, arith, Bool-cases,
}
use arctic_rss.Limiter.{
  HostState, holding, released, Limiter, is_holding, put, put_host, remove, set_state, set_phase,
  release, forget,
}
use arctic_rss.Limiter.Maps.{
  has, distinct, has-remove, put_host-same, put_host-twice, length-remove,
}
use arctic_rss.Limiter.Semaphore.{Semaphore, Semaphores, change, give_back}
use arctic_rss.Limiter.Fairness.{IsFair, AllFair}
use arctic_rss.Limiter.Store.{Stored, set_state-Store}
use arctic_rss.Limiter.Table.{known-Memory, Implements, same-Table, set_phase-Table}
use arctic_rss.Limiter.Aborting.{forget-Implements}

List-cases : (xs : List ℕ) → (xs ≡ []) ⊎ ((y : ℕ) × ((ys : List ℕ) × (xs ≡ y ∷ ys)))
List-cases [] = inl refl
List-cases (y ∷ ys) = inr (y, (ys, refl))

-- A slot that nobody waits for is free.
release-last :
    (t : ℕ) (maximum : ℕ) (l : Limiter) (s : Semaphores) (r : ℕ)
    → Implements l s
    → IsFair maximum s.next_request s.host_of (s.host_of t) (s.of (s.host_of t))
    → l.hosts (s.host_of t) ≡ some r
    → has t (s.of (s.host_of t)).holders ≡ true
    → (s.of (s.host_of t)).queue ≡ []
    → Implements
        (set_state r
          (record { active = (l.states r).active - 1; waiters = [] })
          (set_phase t released l))
        (record s {
          of =
              put_host
                (s.host_of t)
                (record { holders = remove t (s.of (s.host_of t)).holders; queue = [] })
                s.of;
        })
release-last t maximum l s r i fair known held nobody =
    let host = s.host_of t in
    let v = s.of host in
    let st = i.store.stored host r known in
    let less = length-remove t v.holders fair.holders_once held in
    let free : Semaphore = record { holders = remove t v.holders; queue = [] } in
    let state : HostState = record { active = (l.states r).active - 1; waiters = [] } in
    let stored : Stored state free = record {
      active = omega (arith, st.active, less);
      waiters = refl;
    } in
    record {
      fresh = i.fresh;
      table =
          set_phase-Table l.hosts l.requests s.of s.host_of t released free i.table
            (ground (arith, has-remove t t v.holders)) refl (λ dead. cc)
            (λ x other. ground (arith, other, has-remove x t v.holders)) (λ x _. rw nobody refl);
      store =
          set_state-Store l.hosts l.states l.next_state s.of host r state free i.store known stored;
      memory = i.memory;
    }

-- A slot that somebody waits for goes to the first of them.
release-next :
    (t : ℕ) (maximum : ℕ) (l : Limiter) (s : Semaphores) (r w : ℕ) (ws : List ℕ)
    → Implements l s
    → IsFair maximum s.next_request s.host_of (s.host_of t) (s.of (s.host_of t))
    → l.hosts (s.host_of t) ≡ some r
    → has t (s.of (s.host_of t)).holders ≡ true
    → (s.of (s.host_of t)).queue ≡ w ∷ ws
    → Implements
        (set_phase w holding (
          set_state r
            (record { active = (l.states r).active - 1 + 1; waiters = ws })
            (set_phase t released l)))
        (change
          (s.host_of t)
          (record { holders = w ∷ remove t (s.of (s.host_of t)).holders; queue = ws })
          s)
release-next t maximum l s r w ws i fair known held waits =
    let host = s.host_of t in
    let v = s.of host in
    let st = i.store.stored host r known in
    let less = length-remove t v.holders fair.holders_once held in
    let middle : Semaphore = record { holders = remove t v.holders; queue = v.queue } in
    let end : Semaphore = record { holders = w ∷ remove t v.holders; queue = ws } in
    let state : HostState = record { active = (l.states r).active - 1 + 1; waiters = ws } in
    let stored : Stored state end = record {
      active = omega (arith, st.active, less);
      waiters = refl;
    } in
    let first : has w v.queue ≡ true = rw waits (ground arith) in
    let w_host : s.host_of w ≡ host = (fair.own w (ground (arith, first))).0 in
    let t_waits : has t v.queue ≡ false = ground (arith, held, fair.apart t) in
    let once = subst (λ q. distinct q ≡ true) waits fair.queue_once in
    let released_table =
      set_phase-Table l.hosts l.requests s.of s.host_of t released middle i.table
        (ground (arith, has-remove t t v.holders)) (sym t_waits) (λ dead. cc)
        (λ x other. ground (arith, other, has-remove x t v.holders)) (λ x _. refl) in
    let of_middle = put_host host middle s.of in
    let at_w : of_middle (s.host_of w) ≡ middle =
      subst (λ h. of_middle h ≡ middle) (sym w_host) (put_host-same host middle s.of) in
    let w_entry = released_table w in
    let w_waits : has w (of_middle (s.host_of w)).queue ≡ true =
      ap (λ (x : Semaphore). has w x.queue) at_w ∙ first in
    let w_live = w_entry.placed (ground (arith, w_entry.waits ∙ w_waits)) in
    let granted =
      set_phase-Table l.hosts (put t (record (l.requests t) { phase = released }) l.requests)
        of_middle s.host_of w holding end released_table (ground arith) (ground (arith, once))
        (λ _. w_live)
        (λ x other.
          let held_at = ap (λ (y : Semaphore). has x y.holders) at_w in
          let kept : has x end.holders ≡ has x middle.holders = ground (arith, other) in
          kept ∙ sym held_at)
        (λ x other.
          let queue_at = ap (λ (y : Semaphore). has x y.queue) at_w ∙ ap (λ q. has x q) waits in
          let kept : has x ws ≡ has x (w ∷ ws) = ground (arith, other) in kept ∙ sym queue_at) in
    let twice : (h : Text) → put_host (s.host_of w) end of_middle h ≡ put_host host end s.of h =
      λ h.
        subst (λ k. put_host k end of_middle h ≡ put_host host end s.of h) (sym w_host)
          (put_host-twice host end middle s.of h) in
    let table =
      same-Table l.hosts _ (put_host (s.host_of w) end of_middle) (put_host host end s.of) s.host_of
        twice granted in
    record {
      fresh = i.fresh;
      table = table;
      store =
          set_state-Store l.hosts l.states l.next_state s.of host r state end i.store known stored;
      memory = known-Memory l.hosts s.remembered host r known i.memory;
    }

-- A call of the release gives the slot back, the first time.
pub release-Implements :
    (t : ℕ) (maximum : ℕ) (l : Limiter) (s : Semaphores)
    → Implements l s
    → AllFair maximum s
    → Implements (release t l) (give_back t s)
unfolding release
release-Implements t maximum l s i fair =
    let host = s.host_of t in
    let v = s.of host in
    let e = i.table t in
    elim (Bool-cases (has t v.holders)) [
      | inr absent ↦
          let idle : is_holding (l.requests t).phase ≡ false = e.holds ∙ absent in
          rw (idle, absent) i
      | inl held ↦
          let live : is_holding (l.requests t).phase ≡ true = e.holds ∙ held in
          let r = (l.requests t).state in
          let placed = e.placed (ground (arith, live)) in
          let known : l.hosts host ≡ some r = subst (λ h. l.hosts h ≡ some r) e.known placed in
          let st = i.store.stored host r known in
          elim (List-cases v.queue) [
            | inl nobody ↦
                let none_waits : (l.states r).waiters ≡ [] = st.waiters ∙ nobody in
                let last = release-last t maximum l s r i (fair host) known held nobody in
                let left : Semaphore = record { holders = remove t v.holders; queue = [] } in
                let l' =
                  set_state r (record { active = (l.states r).active - 1; waiters = [] })
                    (set_phase t released l) in
                let s' : Semaphores = record s { of = put_host host left s.of } in
                let same = put_host-same host left s.of in
                rw (live, held, none_waits, nobody)
                  (subst (λ h. Implements (forget h r l') (change host left s)) (sym e.known)
                    (forget-Implements l' s' host r left last known same))
            | inr (w, (ws, waits)) ↦
                let some_waits : (l.states r).waiters ≡ w ∷ ws = st.waiters ∙ waits in
                rw (live, held, some_waits, waits)
                  (release-next t maximum l s r w ws i (fair host) known held waits)
          ]
    ]

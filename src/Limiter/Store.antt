-- ===== src/Limiter/Store.antt =====
-- The store and the map of the limiter have the semaphores.
use arctic_rss.Prelude.{
  ℕ, ◌+◌, ◌<◌, ◌≡◌, refl, ap, sym, ◌∙◌, subst, ◌⊎◌, inl, inr, true, Option, none, some, List, [],
  ◌∷◌, ◌==◌, length, Text, text_eq, text_eq_refl, text_eq_sound, arith, branch, Bool-cases,
  Option-cases,
}
use arctic_rss.Limiter.{HostState, Limiter, idle, is_idle, put, put_host, remember, forget}
use arctic_rss.Limiter.Maps.{put_host-all, put_host-same, put-same}
use arctic_rss.Limiter.Semaphore.{Semaphore}

abbrev pub empty : Semaphore
empty = record { holders = []; queue = [] }

-- An object of the store has the semaphore.
pub record Stored (state : HostState) (s : Semaphore) : Type 0 where
  pub active : state.active ≡ length s.holders
  pub waiters : state.waiters ≡ s.queue

-- A host that the map has has an object of its own in the store; the semaphores of the others are free.
pub record Store (hosts : Text → Option ℕ) (states : ℕ → HostState) (next : ℕ)
    (of : Text → Semaphore) : Type 0 where
  pub stored : (h : Text) (r : ℕ) → hosts h ≡ some r → Stored (states r) (of h)
  pub old : (h : Text) (r : ℕ) → hosts h ≡ some r → r < next
  pub absent : (h : Text) → hosts h ≡ none → of h ≡ empty
  pub apart : (h k : Text) (r : ℕ) → hosts h ≡ some r → hosts k ≡ some r → text_eq h k ≡ true

idle-Stored : (s : Semaphore) → s ≡ empty → Stored idle s
idle-Stored s e = rw e (record { active = refl; waiters = refl })

pub set_state-Store :
    (hosts : Text → Option ℕ) (states : ℕ → HostState) (next : ℕ) (of : Text → Semaphore)
    (host : Text) (r : ℕ) (state : HostState) (s : Semaphore)
    → Store hosts states next of
    → hosts host ≡ some r
    → Stored state s
    → Store hosts (put r state states) next (put_host host s of)
set_state-Store hosts states next of host r state s c here new = record {
  stored = λ h q e.
      branch (Stored (put r state states q)) (text_eq h host)
        (λ same.
          let here' = subst (λ k. hosts k ≡ some q) (text_eq_sound h host same) e in
          let q_r : q ≡ r = ground (arith, here, here') in
          subst (λ x. Stored (put r state states x) s) (sym q_r)
            (subst (λ x. Stored x s) (sym (put-same r state states)) new))
        (λ other.
          branch (λ x. Stored x (of h)) (q == r)
            (λ eq.
              let q_r : q ≡ r = ground (arith, eq) in
              let same = c.apart h host r (subst (λ x. hosts h ≡ some x) q_r e) here in
              absurd (ground (arith, same, other)))
            (λ _. c.stored h q e));
  old = c.old;
  absent = λ h e.
      branch (λ x. x ≡ empty) (text_eq h host)
        (λ same.
          let gone = subst (λ k. hosts k ≡ none) (text_eq_sound h host same) e in
          absurd (ground (arith, here, gone)))
        (λ _. c.absent h e);
  apart = c.apart;
}

kept :
    (hosts : Text → Option ℕ) (host h : Text) (q : ℕ)
    → put_host host none hosts h ≡ some q
    → hosts h ≡ some q
kept hosts host h q e = ground (arith, e)

length_nil : (xs : List ℕ) → length xs ≡ 0 → xs ≡ []
length_nil [] h = refl
length_nil (x ∷ xs) h = absurd (ground (arith, h))

pub idle-empty :
    (state : HostState) (s : Semaphore) → Stored state s → is_idle state ≡ true → s ≡ empty
idle-empty state s st h =
    let none_held : length s.holders ≡ 0 = ground (arith, st.active, h) in
    let no_waiter : state.waiters ≡ [] = ground (arith, h) in
    let holders = length_nil s.holders none_held in
    let queue = sym st.waiters ∙ no_waiter in
    ap (λ xs. record { holders = xs; queue = s.queue }) holders
    ∙ ap (λ q. record { holders = []; queue = q }) queue

pub forget-Store :
    (l : Limiter) (of : Text → Semaphore) (host : Text) (r : ℕ)
    → Store l.hosts l.states l.next_state of
    → l.hosts host ≡ some r
    → Store (forget host r l).hosts (forget host r l).states (forget host r l).next_state of
unfolding forget
forget-Store l of host r c here =
    branch (λ (m : Limiter). Store m.hosts m.states m.next_state of) (is_idle (l.states r))
      (λ unused. record {
        stored = λ h q e. c.stored h q (kept l.hosts host h q e);
        old = λ h q e. c.old h q (kept l.hosts host h q e);
        absent = λ h e. elim (Bool-cases (text_eq h host)) [
          | inl same ↦
              subst (λ k. of k ≡ empty) (sym (text_eq_sound h host same))
                (idle-empty (l.states r) (of host) (c.stored host r here) unused)
          | inr other ↦ c.absent h (ground (arith, e, other))
        ];
        apart = λ h k q e d. c.apart h k q (kept l.hosts host h q e) (kept l.hosts host k q d);
      })
      (λ _. c)

pub remember-known :
    (l : Limiter) (host : Text) → (remember host l).0.hosts host ≡ some (remember host l).1
unfolding remember
remember-known l host = elim (Option-cases (l.hosts host)) [
  | inl e ↦ rw (remember, e, put_host-same host (some l.next_state) l.hosts) refl
  | inr (r, e) ↦ rw (remember, e, put_host-same host (some r) l.hosts) refl
]

pub remember-requests : (l : Limiter) (host : Text) → (remember host l).0.requests ≡ l.requests
unfolding remember
remember-requests l host = elim (Option-cases (l.hosts host)) [
  | inl e ↦ rw (remember, e) refl
  | inr (r, e) ↦ rw (remember, e) refl
]

pub remember-fresh : (l : Limiter) (host : Text) → (remember host l).0.next_request ≡ l.next_request
unfolding remember
remember-fresh l host = elim (Option-cases (l.hosts host)) [
  | inl e ↦ rw (remember, e) refl
  | inr (r, e) ↦ rw (remember, e) refl
]

-- The hosts that the map has stay where they are.
pub remember-kept :
    (l : Limiter) (host h : Text) (r : ℕ)
    → l.hosts h ≡ some r
    → (remember host l).0.hosts h ≡ some r
unfolding remember
remember-kept l host h r k = elim (Option-cases (l.hosts host)) [
  | inl e ↦
      rw (remember, e)
        (branch (λ x. x ≡ some r) (text_eq h host)
          (λ same.
            let k' = subst (λ x. l.hosts x ≡ some r) (text_eq_sound h host same) k in
            ground (arith, k', e))
          (λ _. k))
  | inr (q, e) ↦
      rw (remember, e)
        (branch (λ x. x ≡ some r) (text_eq h host)
          (λ same.
            let k' = subst (λ x. l.hosts x ≡ some r) (text_eq_sound h host same) k in
            ground (arith, k', e))
          (λ _. k))
]

again-Store :
    (hosts : Text → Option ℕ) (states : ℕ → HostState) (next : ℕ) (of : Text → Semaphore)
    (host : Text) (q : ℕ)
    → Store hosts states next of
    → hosts host ≡ some q
    → Store (put_host host (some q) hosts) states next of
again-Store hosts states next of host q c e =
    let same : (h : Text) → put_host host (some q) hosts h ≡ hosts h = λ h.
      branch (λ x. x ≡ hosts h) (text_eq h host)
        (λ s. sym (subst (λ x. hosts x ≡ some q) (sym (text_eq_sound h host s)) e)) (λ _. refl) in
    record {
      stored = λ h r k. c.stored h r (sym (same h) ∙ k);
      old = λ h r k. c.old h r (sym (same h) ∙ k);
      absent = λ h k. c.absent h (sym (same h) ∙ k);
      apart = λ h k r d d'. c.apart h k r (sym (same h) ∙ d) (sym (same k) ∙ d');
    }

-- An entry of the map with a new one is the new one, at its own address, or an old one.
new-entry :
    (hosts : Text → Option ℕ) (next : ℕ) (host h : Text) (r : ℕ)
    → put_host host (some next) hosts h ≡ some r
    → ((text_eq h host ≡ true) × (r ≡ next)) ⊎ (hosts h ≡ some r)
new-entry hosts next host h r e = elim (Bool-cases (text_eq h host)) [
  | inl same ↦ inl (same, ground (arith, e, same))
  | inr other ↦ inr (ground (arith, e, other))
]

both_same : (h k host : Text) → text_eq h host ≡ true → text_eq k host ≡ true → text_eq h k ≡ true
both_same h k host a b =
    let e = text_eq_sound h host a ∙ sym (text_eq_sound k host b) in
    subst (λ x. text_eq h x ≡ true) e (text_eq_refl h)

new-Store :
    (hosts : Text → Option ℕ) (states : ℕ → HostState) (next : ℕ) (of : Text → Semaphore)
    (host : Text)
    → Store hosts states next of
    → hosts host ≡ none
    → Store (put_host host (some next) hosts) (put next idle states) (next + 1) of
new-Store hosts states next of host c e = record {
  stored = λ h r k. elim (new-entry hosts next host h r k) [
    | inl (same, r_next) ↦
        let h_host = text_eq_sound h host same in
        let was : of h ≡ empty = subst (λ x. of x ≡ empty) (sym h_host) (c.absent host e) in
        subst (λ x. Stored (put next idle states x) (of h)) (sym r_next)
          (subst (λ x. Stored x (of h)) (sym (put-same next idle states)) (idle-Stored (of h) was))
    | inr before ↦
        let less = c.old h r before in
        branch (λ x. Stored x (of h)) (r == next) (λ eq. absurd (ground (arith, eq, less)))
          (λ _. c.stored h r before)
  ];
  old = λ h r k. elim (new-entry hosts next host h r k) [
    | inl (same, r_next) ↦ omega (arith, r_next)
    | inr before ↦ omega (arith, c.old h r before)
  ];
  absent = λ h k. c.absent h (ground (arith, k));
  apart = λ h k r d d'. elim (new-entry hosts next host h r d) [
    | inl (same, r_next) ↦ elim (new-entry hosts next host k r d') [
      | inl (same', r_next') ↦ both_same h k host same same'
      | inr before' ↦ absurd (omega (arith, r_next, c.old k r before'))
    ]
    | inr before ↦ elim (new-entry hosts next host k r d') [
      | inl (same', r_next') ↦ absurd (omega (arith, r_next', c.old h r before))
      | inr before' ↦ c.apart h k r before before'
    ]
  ];
}

pub remember-Store :
    (l : Limiter) (host : Text) (of : Text → Semaphore)
    → Store l.hosts l.states l.next_state of
    → Store (remember host l).0.hosts (remember host l).0.states (remember host l).0.next_state of
unfolding remember
remember-Store l host of c = elim (Option-cases (l.hosts host)) [
  | inl e ↦ rw (remember, e) (new-Store l.hosts l.states l.next_state of host c e)
  | inr (q, e) ↦ rw (remember, e) (again-Store l.hosts l.states l.next_state of host q c e)
]

-- To write what is there changes nothing.
pub same-Store :
    (hosts : Text → Option ℕ) (states : ℕ → HostState) (next : ℕ) (of : Text → Semaphore)
    (host : Text)
    → Store hosts states next of
    → Store hosts states next (put_host host (of host) of)
same-Store hosts states next of host c =
    let same : (h : Text) → of h ≡ put_host host (of host) of h =
      put_host-all (λ h x. of h ≡ x) host (of host) of refl (λ h _. refl) in
    record {
      stored = λ h r k. subst (λ x. Stored (states r) x) (same h) (c.stored h r k);
      old = c.old;
      absent = λ h k. sym (same h) ∙ c.absent h k;
      apart = c.apart;
    }

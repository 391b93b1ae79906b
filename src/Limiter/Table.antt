-- ===== src/Limiter/Table.antt =====
-- The requests of the limiter have the semaphores.
use arctic_rss.Prelude.{
  Bool, is_some, arith, inl, inr, Bool-cases, ℕ, ◌≡◌, refl, sym, ◌∙◌, subst, true, false, Option,
  some, ◌||◌, ◌==◌, Text, text_eq, text_eq_sound, branch,
}
use arctic_rss.Limiter.{Phase, Request, Limiter, is_waiting, is_holding, put, put_host}
use arctic_rss.Limiter.Maps.{has, put_host-all, put_host-same, put-all, both_put-all}
use arctic_rss.Limiter.Semaphore.{Semaphore, Semaphores}
use arctic_rss.Limiter.Store.{Store}

-- A request holds a slot or waits exactly if its semaphore says so, and then the map has its state.
pub record Entry (hosts : Text → Option ℕ) (q : Request) (host : Text) (s : Semaphore) (t : ℕ)
    : Type 0 where
  pub known : q.host ≡ host
  pub holds : is_holding q.phase ≡ has t s.holders
  pub waits : is_waiting q.phase ≡ has t s.queue
  pub placed : (is_holding q.phase || is_waiting q.phase) ≡ true → hosts q.host ≡ some q.state

abbrev pub Table : (Text → Option ℕ) → (ℕ → Request) → (Text → Semaphore) → (ℕ → Text) → Type 0
Table hosts requests of host_of = (t : ℕ) → Entry hosts (requests t) (host_of t) (of (host_of t)) t

-- The map has just the hosts that are remembered.
abbrev pub Memory : (Text → Option ℕ) → (Text → Bool) → Type 0
Memory hosts remembered = (h : Text) → is_some (hosts h) ≡ remembered h

-- A host that the map has is remembered.
pub known-Memory :
    (hosts : Text → Option ℕ) (remembered : Text → Bool) (host : Text) (r : ℕ)
    → hosts host ≡ some r
    → Memory hosts remembered
    → Memory hosts (put_host host true remembered)
known-Memory hosts remembered host r known m =
    put_host-all (λ h b. is_some (hosts h) ≡ b) host true remembered (ground (arith, known))
      (λ h _. m h)

-- An entry of the map that is set or deleted is remembered or not.
pub put-Memory :
    (hosts : Text → Option ℕ) (remembered : Text → Bool) (host : Text) (o : Option ℕ)
    → Memory hosts remembered
    → Memory (put_host host o hosts) (put_host host (is_some o) remembered)
put-Memory hosts remembered host o m h = elim (Bool-cases (text_eq h host)) [
  | inl same ↦ rw same refl
  | inr other ↦ rw other (m h)
]

pub record Implements (l : Limiter) (s : Semaphores) : Type 0 where
  pub fresh : l.next_request ≡ s.next_request
  pub table : Table l.hosts l.requests s.of s.host_of
  pub store : Store l.hosts l.states l.next_state s.of
  pub memory : Memory l.hosts s.remembered

-- A change of one semaphore concerns no request that it treats as before.
elsewhere :
    (hosts : Text → Option ℕ) (q : Request) (of : Text → Semaphore) (h host : Text) (s : Semaphore)
    (t : ℕ)
    → has t s.holders ≡ has t (of host).holders
    → has t s.queue ≡ has t (of host).queue
    → Entry hosts q h (of h) t
    → Entry hosts q h (put_host host s of h) t
elsewhere hosts q of h host s t same_holders same_queue e =
    branch (λ v. Entry hosts q h v t) (text_eq h host)
      (λ same.
        let h_host = text_eq_sound h host same in
        let e' = subst (λ k. Entry hosts q h (of k) t) h_host e in
        record {
          known = e'.known;
          holds = e'.holds ∙ sym same_holders;
          waits = e'.waits ∙ sym same_queue;
          placed = e'.placed;
        })
      (λ _. e)

pub here :
    (hosts : Text → Option ℕ) (q : Request) (of : Text → Semaphore) (host : Text) (s : Semaphore)
    (t : ℕ)
    → Entry hosts q host s t
    → Entry hosts q host (put_host host s of host) t
here hosts q of host s t e = rw (put_host-same host s of) e

-- A map that has what the other has serves as well.
pub kept-Table :
    (hosts hosts' : Text → Option ℕ) (requests : ℕ → Request) (of : Text → Semaphore)
    (host_of : ℕ → Text)
    → ((h : Text) (r : ℕ) → hosts h ≡ some r → hosts' h ≡ some r)
    → Table hosts requests of host_of
    → Table hosts' requests of host_of
kept-Table hosts hosts' requests of host_of kept table t =
    let e = table t in
    record {
      known = e.known;
      holds = e.holds;
      waits = e.waits;
      placed = λ live. kept (requests t).host (requests t).state (e.placed live);
    }

-- Semaphores that are the same serve as well.
pub same-Table :
    (hosts : Text → Option ℕ) (requests : ℕ → Request) (of of' : Text → Semaphore)
    (host_of : ℕ → Text)
    → ((h : Text) → of h ≡ of' h)
    → Table hosts requests of host_of
    → Table hosts requests of' host_of
same-Table hosts requests of of' host_of same table t =
    subst (λ v. Entry hosts (requests t) (host_of t) v t) (same (host_of t)) (table t)

pub new_request-Table :
    (hosts : Text → Option ℕ) (requests : ℕ → Request) (of : Text → Semaphore) (host_of : ℕ → Text)
    (next : ℕ) (host : Text) (r : ℕ) (p : Phase) (s : Semaphore)
    → Table hosts requests of host_of
    → hosts host ≡ some r
    → is_holding p ≡ has next s.holders
    → is_waiting p ≡ has next s.queue
    → ((t : ℕ) → (t == next) ≡ false → has t s.holders ≡ has t (of host).holders)
    → ((t : ℕ) → (t == next) ≡ false → has t s.queue ≡ has t (of host).queue)
    → Table hosts
        (put next (record { host = host; state = r; phase = p }) requests)
        (put_host host s of)
        (put next host host_of)
new_request-Table hosts requests of host_of next host r p s table known holds waits same_holders
      same_queue =
    both_put-all (λ t q h. Entry hosts q h (put_host host s of h) t) next
      (record { host = host; state = r; phase = p }) host requests host_of
      (here hosts (record { host = host; state = r; phase = p }) of host s next
        (record { known = refl; holds = holds; waits = waits; placed = λ _. known }))
      (λ t other.
        elsewhere hosts (requests t) of (host_of t) host s t (same_holders t other)
          (same_queue t other) (table t))

-- Another phase of one request.
pub set_phase-Table :
    (hosts : Text → Option ℕ) (requests : ℕ → Request) (of : Text → Semaphore) (host_of : ℕ → Text)
    (t : ℕ) (p : Phase) (s : Semaphore)
    → Table hosts requests of host_of
    → is_holding p ≡ has t s.holders
    → is_waiting p ≡ has t s.queue
    → ((is_holding p || is_waiting p) ≡ true → hosts (requests t).host ≡ some (requests t).state)
    → ((x : ℕ) → (x == t) ≡ false → has x s.holders ≡ has x (of (host_of t)).holders)
    → ((x : ℕ) → (x == t) ≡ false → has x s.queue ≡ has x (of (host_of t)).queue)
    → Table hosts
        (put t (record (requests t) { phase = p }) requests)
        (put_host (host_of t) s of)
        host_of
set_phase-Table hosts requests of host_of t p s table holds waits placed same_holders same_queue =
    put-all (λ x q. Entry hosts q (host_of x) (put_host (host_of t) s of (host_of x)) x) t
      (record (requests t) { phase = p }) requests
      (here hosts (record (requests t) { phase = p }) of (host_of t) s t
        (record { known = (table t).known; holds = holds; waits = waits; placed = placed }))
      (λ x other.
        elsewhere hosts (requests x) of (host_of x) (host_of t) s x (same_holders x other)
          (same_queue x other) (table x))

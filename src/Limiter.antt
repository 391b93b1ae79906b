-- ===== src/Limiter.antt =====
-- The limiter of requests by host (createHostRequestLimiter and createRelease in
-- src/lib/url-safety.ts). The states of the hosts are objects which the map and the closures share: a
-- store has them, and the map and the requests have their addresses. The requests are numbered; the
-- closures of a request (its release, the granting of its slot, its abort listener) are functions of
-- its number.
pub mod Maps
pub mod Semaphore
pub mod Fairness
pub mod Store
pub mod Table
pub mod Acquiring
pub mod Aborting
pub mod Releasing
pub mod Refinement
pub mod Slots
mod Tests
use arctic_rss.Prelude.{
  ℕ, zero, suc, ◌+◌, ◌-◌, Bool, true, false, Option, none, some, List, [], ◌∷◌, ◌++◌, ◌&&◌, not,
  if◌then◌else◌, ltb, ◌==◌, keep, Text, text_eq,
}

pub record HostState : Type 0 where
  pub active : ℕ
  pub waiters : List ℕ

-- What became of a request.
pub data Phase : Type 0 where
  unknown waiting holding released refused : Phase

-- What the closures of a request capture, and how far they got.
pub record Request : Type 0 where
  pub host : Text
  pub state : ℕ
  pub phase : Phase

pub record Limiter : Type 0 where
  pub hosts : Text → Option ℕ
  pub states : ℕ → HostState
  pub next_state : ℕ
  pub requests : ℕ → Request
  pub next_request : ℕ

abbrev pub idle : HostState
idle = record { active = 0; waiters = [] }

abbrev pub new_limiter : Limiter
new_limiter = record {
  hosts = λ h. none;
  states = λ r. idle;
  next_state = 0;
  requests = λ t. record { host = []; state = 0; phase = unknown };
  next_request = 0;
}

-- `maxConcurrentRequests` must be positive.
abbrev pub create_host_request_limiter : ℕ → Option Limiter
create_host_request_limiter zero = none
create_host_request_limiter (suc n) = some new_limiter

-- `map.set` and `map.delete`, and a write of the store.
abbrev pub put_host {ℓ} : {A : Type ℓ} → Text → A → (Text → A) → Text → A
put_host key a f = λ h. if text_eq h key then a else f h

abbrev pub put {ℓ} : {A : Type ℓ} → ℕ → A → (ℕ → A) → ℕ → A
put key a f = λ n. if n == key then a else f n

abbrev pub remove : ℕ → List ℕ → List ℕ
remove t xs = keep (λ x. not (x == t)) xs

abbrev pub set_state : ℕ → HostState → Limiter → Limiter
set_state r s l = record l { states = put r s l.states }

abbrev pub set_phase : ℕ → Phase → Limiter → Limiter
set_phase t p l = record l { requests = put t (record (l.requests t) { phase = p }) l.requests }

abbrev pub new_request : Text → ℕ → Phase → Limiter → Limiter
new_request host r p l = record l {
  requests = put l.next_request (record { host = host; state = r; phase = p }) l.requests;
  next_request = l.next_request + 1;
}

-- `hosts.get(host) ?? { active: 0, waiters: [] }` and `hosts.set(host, state)`.
unfoldable pub remember : Text → Limiter → Limiter × ℕ
remember host l = elim (l.hosts host) [
  | some r ↦ (record l { hosts = put_host host (some r) l.hosts }, r)
  | none ↦ (
    record l {
      hosts = put_host host (some l.next_state) l.hosts;
      states = put l.next_state idle l.states;
      next_state = l.next_state + 1;
    },
    l.next_state,
  )
]

abbrev pub is_idle : HostState → Bool
is_idle s = s.active == 0 && elim s.waiters [ [] ↦ true | _ ∷ _ ↦ false ]

-- `hosts.delete(host)`, if the state has neither a holder nor a waiter.
unfoldable pub forget : Text → ℕ → Limiter → Limiter
forget host r l =
    if is_idle (l.states r) then record l { hosts = put_host host none l.hosts } else l

abbrev pub is_waiting : Phase → Bool
is_waiting waiting = true
is_waiting _ = false

abbrev pub is_holding : Phase → Bool
is_holding holding = true
is_holding _ = false

-- The listener of a waiting request's abort signal. The granting of a slot takes it away.
unfoldable pub on_abort : ℕ → Limiter → Limiter
unfolding forget
on_abort t l =
    let request = l.requests t in
    let s = l.states request.state in
    let left = record s { waiters = remove t s.waiters } in
    if is_waiting request.phase
    then forget request.host request.state (set_phase t refused (set_state request.state left l))
    else l

-- The function that a request gets with its slot. Only the first call counts.
unfoldable pub release : ℕ → Limiter → Limiter
unfolding forget
release t l =
    let request = l.requests t in
    let s = l.states request.state in
    let l' = set_phase t released l in
    let next = elim s.waiters as (λ x. Limiter) [
      | w ∷ ws ↦
          set_phase w holding
            (set_state request.state (record { active = s.active - 1 + 1; waiters = ws }) l')
      | [] ↦
          forget request.host request.state
            (set_state request.state (record { active = s.active - 1; waiters = [] }) l')
    ] in
    if is_holding request.phase then next else l

-- A leading character, and one at the end, that are cut off.
abbrev without_first : ℕ → Text → Text
without_first mark [] = []
without_first mark (c ∷ s) = if c == mark then s else c ∷ s

unfoldable pub without_last : ℕ → Text → Text
without_last mark [] = []
without_last mark (c ∷ []) = if c == mark then [] else c ∷ []
without_last mark (c ∷ d ∷ s) = c ∷ without_last mark (d ∷ s)

module _ (to_lower_case : Text → Text) where
  unfoldable pub normalize_hostname : Text → Text
  unfolding without_last
  normalize_hostname hostname =
      without_last b'.' (without_last b']' (without_first b'[' (to_lower_case hostname)))

  -- `acquire`. Whether the signal is aborted already is an argument.
  unfoldable pub acquire : ℕ → Text → Bool → Limiter → Limiter
  unfolding remember
  acquire maximum hostname aborted l =
      let host = normalize_hostname hostname in
      let (l', r) = remember host l in
      let s = l'.states r in
      if aborted
      then new_request host r refused l'
      else if ltb s.active maximum
      then new_request host r holding (set_state r (record s { active = s.active + 1 }) l')
      else new_request host r waiting
          (set_state r (record s { waiters = s.waiters ++ l'.next_request ∷ [] }) l')

-- What the callers do, one after the other.
pub data Event : Type 0 where
  acquires : Text → Bool → Event
  releases aborts : ℕ → Event

module _ (to_lower_case : Text → Text) (maximum : ℕ) where
  abbrev pub on_event : Event → Limiter → Limiter
  on_event (acquires hostname aborted) l = acquire to_lower_case maximum hostname aborted l
  on_event (releases t) l = release t l
  on_event (aborts t) l = on_abort t l

  abbrev pub on_events : List Event → Limiter → Limiter
  on_events [] l = l
  on_events (e ∷ es) l = on_events es (on_event e l)

-- ===== src/Limiter/Fairness.antt =====
-- The semaphores are as they should be, whatever is asked of them.
use arctic_rss.Prelude.{
  ℕ, ◌+◌, ◌≤◌, ◌<◌, ◌≡◌, refl, inl, inr, Bool, true, false, List, [], ◌∷◌, ◌||◌, ltb, ◌==◌, length,
  Text, arith, branch, Bool-cases,
}
use arctic_rss.Limiter.{put, remove, normalize_hostname, Event, acquires, releases, aborts}
use arctic_rss.Limiter.Maps.{
  has, distinct, put_host-all, has-remove, has-append, length-remove, distinct-remove,
  distinct-append,
}
use arctic_rss.Limiter.Semaphore.{
  Semaphore, Semaphores, free, pass_on, admit, ask, give_back, give_up, serve,
}

-- A semaphore that is as it should be: its requests are of its host, stand once, are at most as many as
-- the slots while they hold them, and wait only while all slots are held.
pub record IsFair (maximum next : ℕ) (host_of : ℕ → Text) (host : Text) (s : Semaphore)
    : Type 0 where
  pub own : (t : ℕ) → (has t s.holders || has t s.queue) ≡ true → (host_of t ≡ host) × (t < next)
  pub apart : (t : ℕ) → has t s.queue ≡ true → has t s.holders ≡ false
  pub holders_once : distinct s.holders ≡ true
  pub queue_once : distinct s.queue ≡ true
  pub bounded : length s.holders ≤ maximum
  pub full : (t : ℕ) → has t s.queue ≡ true → length s.holders ≡ maximum

pass_on-IsFair :
    (maximum next : ℕ) (host_of : ℕ → Text) (host : Text) (t : ℕ) (hs q : List ℕ)
    → IsFair maximum next host_of host (record { holders = hs; queue = q })
    → has t hs ≡ true
    → IsFair maximum next host_of host (pass_on (remove t hs) q)
pass_on-IsFair maximum next host_of host t hs [] f h =
    let less = length-remove t hs f.holders_once h in
    record {
      own = λ s m. f.own s (ground (arith, m, has-remove s t hs));
      apart = λ s m. cc;
      holders_once = distinct-remove t hs f.holders_once;
      queue_once = refl;
      bounded = omega (arith, less, f.bounded);
      full = λ s m. cc;
    }
pass_on-IsFair maximum next host_of host t hs (w ∷ ws) f h =
    let less = length-remove t hs f.holders_once h in
    let first : has w (w ∷ ws) ≡ true = ground arith in
    let once = f.queue_once in
    let filled = f.full w first in
    record {
      own = λ s m. f.own s (ground (arith, m, has-remove s t hs));
      apart = λ s m. ground (arith, m, once, has-remove s t hs, f.apart s);
      holders_once =
          ground (arith, distinct-remove t hs f.holders_once, has-remove w t hs, f.apart w first);
      queue_once = ground (arith, once);
      bounded = omega (arith, less, filled);
      full = λ s m. omega (arith, less, filled);
    }

remove-IsFair :
    (maximum next : ℕ) (host_of : ℕ → Text) (host : Text) (t : ℕ) (s : Semaphore)
    → IsFair maximum next host_of host s
    → IsFair maximum next host_of host (record s { queue = remove t s.queue })
remove-IsFair maximum next host_of host t s f = record {
  own = λ x m. f.own x (ground (arith, m, has-remove x t s.queue));
  apart = λ x m. f.apart x (ground (arith, m, has-remove x t s.queue));
  holders_once = f.holders_once;
  queue_once = distinct-remove t s.queue f.queue_once;
  bounded = f.bounded;
  full = λ x m. f.full x (ground (arith, m, has-remove x t s.queue));
}

-- A new request leaves every semaphore as it should be.
ask-IsFair :
    (maximum next : ℕ) (host_of : ℕ → Text) (host new : Text) (s : Semaphore)
    → IsFair maximum next host_of host s
    → IsFair maximum (next + 1) (put next new host_of) host s
ask-IsFair maximum next host_of host new s f = record {
  own = λ x m. let (of_host, old) = f.own x m in (ground (arith, of_host, old), omega (arith, old));
  apart = f.apart;
  holders_once = f.holders_once;
  queue_once = f.queue_once;
  bounded = f.bounded;
  full = f.full;
}

pub fresh_holder :
    (maximum next : ℕ) (host_of : ℕ → Text) (host : Text) (s : Semaphore)
    → IsFair maximum next host_of host s
    → has next s.holders ≡ false
fresh_holder maximum next host_of host s f = elim (Bool-cases (has next s.holders)) [
  | inl there ↦ let (_, old) = f.own next (ground (arith, there)) in absurd (omega (arith, old))
  | inr new ↦ new
]

pub fresh_waiter :
    (maximum next : ℕ) (host_of : ℕ → Text) (host : Text) (s : Semaphore)
    → IsFair maximum next host_of host s
    → has next s.queue ≡ false
fresh_waiter maximum next host_of host s f = elim (Bool-cases (has next s.queue)) [
  | inl there ↦ let (_, old) = f.own next (ground (arith, there)) in absurd (omega (arith, old))
  | inr new ↦ new
]

admit-IsFair :
    (maximum next : ℕ) (host_of : ℕ → Text) (host : Text) (aborted : Bool) (s : Semaphore)
    → IsFair maximum next host_of host s
    → IsFair maximum (next + 1) (put next host host_of) host (admit maximum next aborted s)
admit-IsFair maximum next host_of host true s f = ask-IsFair maximum next host_of host host s f
admit-IsFair maximum next host_of host false s f =
    let held = fresh_holder maximum next host_of host s f in
    let queued = fresh_waiter maximum next host_of host s f in
    let g = ask-IsFair maximum next host_of host host s f in
    let own_new : (x : ℕ)
        → ((x == next) ≡ false → (put next host host_of x ≡ host) × (x < next + 1))
        → (put next host host_of x ≡ host) × (x < next + 1) =
      λ x old. elim (Bool-cases (x == next)) [
        | inl same ↦ (ground (arith, same), ground (arith, same))
        | inr other ↦ old other
      ] in
    let apart_new : (x : ℕ) → (has x s.queue || (next == x)) ≡ true → has x s.holders ≡ false =
      λ x m. elim (Bool-cases (has x s.queue)) [
        | inl there ↦ f.apart x there
        | inr new ↦ ground (arith, m, new, held)
      ] in
    branch (IsFair maximum (next + 1) (put next host host_of) host) (ltb (length s.holders) maximum)
      (λ less. record {
        own = λ x m. own_new x (λ other. g.own x (ground (arith, m, other)));
        apart = λ x m. absurd (ground (arith, less, f.full x m));
        holders_once = ground (arith, g.holders_once, held);
        queue_once = g.queue_once;
        bounded = ground (arith, less);
        full = λ x m. absurd (ground (arith, less, f.full x m));
      })
      (λ more. record {
        own = λ x m.
            own_new x
              (λ other. g.own x (ground (arith, m, other, has-append x s.queue (next ∷ []))));
        apart = λ x m. apart_new x (ground (arith, m, has-append x s.queue (next ∷ [])));
        holders_once = g.holders_once;
        queue_once = distinct-append s.queue next g.queue_once queued;
        bounded = g.bounded;
        full = λ x m. ground (arith, more, f.bounded);
      })

abbrev pub AllFair : ℕ → Semaphores → Type 0
AllFair maximum s = (host : Text) → IsFair maximum s.next_request s.host_of host (s.of host)

pub free-AllFair : (maximum : ℕ) → AllFair maximum free
free-AllFair maximum host = record {
  own = λ t m. cc;
  apart = λ t m. cc;
  holders_once = refl;
  queue_once = refl;
  bounded = omega arith;
  full = λ t m. cc;
}

ask-AllFair :
    (maximum : ℕ) (host : Text) (aborted : Bool) (s : Semaphores)
    → AllFair maximum s
    → AllFair maximum (ask maximum host aborted s)
ask-AllFair maximum host aborted s f =
    put_host-all (IsFair maximum (s.next_request + 1) (put s.next_request host s.host_of)) host
      (admit maximum s.next_request aborted (s.of host)) s.of
      (admit-IsFair maximum s.next_request s.host_of host aborted (s.of host) (f host))
      (λ h _. ask-IsFair maximum s.next_request s.host_of h host (s.of h) (f h))

give_back-AllFair :
    (maximum t : ℕ) (s : Semaphores) → AllFair maximum s → AllFair maximum (give_back t s)
give_back-AllFair maximum t s f =
    let host = s.host_of t in
    branch (AllFair maximum) (has t (s.of host).holders)
      (λ held.
        put_host-all (IsFair maximum s.next_request s.host_of) host
          (pass_on (remove t (s.of host).holders) (s.of host).queue) s.of
          (pass_on-IsFair maximum s.next_request s.host_of host t (s.of host).holders
            (s.of host).queue (f host) held)
          (λ h _. f h))
      (λ _. f)

give_up-AllFair :
    (maximum t : ℕ) (s : Semaphores) → AllFair maximum s → AllFair maximum (give_up t s)
give_up-AllFair maximum t s f =
    let host = s.host_of t in
    branch (AllFair maximum) (has t (s.of host).queue)
      (λ waits.
        put_host-all (IsFair maximum s.next_request s.host_of) host
          (record (s.of host) { queue = remove t (s.of host).queue }) s.of
          (remove-IsFair maximum s.next_request s.host_of host t (s.of host) (f host)) (λ h _. f h))
      (λ _. f)

pub serve-AllFair :
    (to_lower_case : Text → Text) (maximum : ℕ) (e : Event) (s : Semaphores)
    → AllFair maximum s
    → AllFair maximum (serve to_lower_case maximum e s)
serve-AllFair to_lower_case maximum (acquires hostname aborted) s f =
    ask-AllFair maximum (normalize_hostname to_lower_case hostname) aborted s f
serve-AllFair to_lower_case maximum (releases t) s f = give_back-AllFair maximum t s f
serve-AllFair to_lower_case maximum (aborts t) s f = give_up-AllFair maximum t s f

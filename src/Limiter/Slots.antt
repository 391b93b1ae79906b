-- ===== src/Limiter/Slots.antt =====
-- The slots of a host.
use arctic_rss.Prelude.{
  ℕ, ◌≤◌, ◌≡◌, ap, sym, ◌∙◌, subst, inl, inr, true, some, List, ◌&&◌, length, Text, text_eq,
  text_eq_refl, text_eq_sound, arith, Bool-cases,
}
use arctic_rss.Limiter.{
  Limiter, is_waiting, is_holding, create_host_request_limiter, Event, on_events,
}
use arctic_rss.Limiter.Maps.{has, distinct}
use arctic_rss.Limiter.Semaphore.{Semaphores, free, serves}
use arctic_rss.Limiter.Fairness.{IsFair, AllFair, free-AllFair}
use arctic_rss.Limiter.Table.{Implements}
use arctic_rss.Limiter.Refinement.{create-Implements, both_on_events}

-- The requests that hold a slot of the host: each stands once, they are at most as many as the slots,
-- and just as many while a request of the host waits.
pub record Slots (maximum : ℕ) (l : Limiter) (host : Text) : Type 0 where
  pub holders : List ℕ
  pub once : distinct holders ≡ true
  pub exactly :
      (t : ℕ)
      → has t holders ≡ (is_holding (l.requests t).phase && text_eq (l.requests t).host host)
  pub bounded : length holders ≤ maximum
  pub full :
      (t : ℕ)
      → is_waiting (l.requests t).phase ≡ true
      → (l.requests t).host ≡ host
      → length holders ≡ maximum

holders-exactly :
    (maximum : ℕ) (l : Limiter) (s : Semaphores) (host : Text)
    → Implements l s
    → IsFair maximum s.next_request s.host_of host (s.of host)
    → (t : ℕ)
    → has t (s.of host).holders
      ≡ (is_holding (l.requests t).phase && text_eq (l.requests t).host host)
holders-exactly maximum l s host i fair t =
    let e = i.table t in
    elim (Bool-cases (text_eq (l.requests t).host host)) [
      | inl same ↦
          let of_host = sym e.known ∙ text_eq_sound (l.requests t).host host same in
          let holds : is_holding (l.requests t).phase ≡ has t (s.of host).holders =
            e.holds ∙ ap (λ h. has t (s.of h).holders) of_host in
          ground (arith, holds, same)
      | inr other ↦ elim (Bool-cases (has t (s.of host).holders)) [
        | inl held ↦
            let of_host = e.known ∙ (fair.own t (ground (arith, held))).0 in
            let same : text_eq (l.requests t).host host ≡ true =
              subst (λ h. text_eq (l.requests t).host h ≡ true) of_host
                (text_eq_refl (l.requests t).host) in
            absurd (ground (arith, same, other))
        | inr not_held ↦ ground (arith, not_held, other)
      ]
    ]

Implements-Slots :
    (maximum : ℕ) (l : Limiter) (s : Semaphores) (host : Text)
    → Implements l s
    → AllFair maximum s
    → Slots maximum l host
Implements-Slots maximum l s host i fair = record {
  holders = (s.of host).holders;
  once = (fair host).holders_once;
  exactly = holders-exactly maximum l s host i (fair host);
  bounded = (fair host).bounded;
  full = λ t waits of_host.
      let e = i.table t in
      let here = sym e.known ∙ of_host in
      (fair host).full t (subst (λ h. has t (s.of h).queue ≡ true) here (sym e.waits ∙ waits));
}

-- Whatever is acquired, released and aborted on a limiter that is created, for each host the requests
-- that hold a slot are at most the maximum, and they are as many as the maximum while a request of the
-- host waits.
pub on_events-Slots :
    (to_lower_case : Text → Text) (maximum : ℕ) (es : List Event) (l : Limiter) (host : Text)
    → create_host_request_limiter maximum ≡ some l
    → Slots maximum (on_events to_lower_case maximum es l) host
on_events-Slots to_lower_case maximum es l host e =
    let (i, fair) =
      both_on_events to_lower_case maximum es l free (create-Implements maximum l e)
        (free-AllFair maximum) in
    Implements-Slots maximum (on_events to_lower_case maximum es l)
      (serves to_lower_case maximum es free) host i fair

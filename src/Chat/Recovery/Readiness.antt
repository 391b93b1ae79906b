-- ===== src/Chat/Recovery/Readiness.antt =====
-- When the gateway is ready, and what it takes to become ready again.
use arctic_rss.Prelude.{
  ℕ, zero, suc, ◌+◌, ◌≡◌, refl, Bool, true, false, Option, none, some, List, [], ◌∷◌, ◌&&◌, not,
  ◌==◌, arith, branch,
}
use arctic_rss.Chat.Recovery.{
  ClientName, Connected, size, add, RecoveryState, update_state, mark_client_unavailable,
  mark_client_ready, continue_ready, continue_start, resubscribed, watchdog_fires, Event, started,
  client_ready, client_lost, reconnecting, resubscription, timer, closing, on_event, on_events,
}

-- A timer runs out a grace period after the beginning of the outage.
abbrev timer_ok : ℕ → Option ℕ → Option ℕ → Bool
timer_ok grace none since = true
timer_ok grace (some t) none = false
timer_ok grace (some t) (some d) = t == d + grace

-- A ready gateway has all its clients, and no outage and no timer; a timer belongs to the outage.
pub record IsSupervised (grace : ℕ) (s : RecoveryState) : Type 0 where
  pub joined : s.ready ≡ true → size s.connected ≡ 6
  pub healthy : s.ready ≡ true → s.degraded_since ≡ none
  pub unwatched : s.ready ≡ true → s.watchdog ≡ none
  pub timed : timer_ok grace s.watchdog s.degraded_since ≡ true

update_state-IsSupervised :
    (grace now : ℕ) (s : RecoveryState)
    → (s.ready ≡ true → s.degraded_since ≡ none)
    → (s.ready ≡ true → s.watchdog ≡ none)
    → timer_ok grace s.watchdog s.degraded_since ≡ true
    → IsSupervised grace (update_state grace now s)
unfolding update_state
update_state-IsSupervised grace now s up quiet timed = record {
  joined = λ h. ground arith;
  healthy = λ h. ground arith;
  unwatched = λ h. ground arith;
  timed = ground arith;
}

size-add : (name : ClientName) (c : Connected) → size c ≡ 6 → size (add name c) ≡ 6
size-add name c h = ground arith

mark_client_unavailable-IsSupervised :
    (grace now : ℕ) (s : RecoveryState)
    → IsSupervised grace s
    → IsSupervised grace (mark_client_unavailable grace now s)
unfolding mark_client_unavailable
mark_client_unavailable-IsSupervised grace now s h =
    let s' : RecoveryState = record s { connected = λ name. false } in
    branch (IsSupervised grace) s.closed (λ e. h)
      (λ e. update_state-IsSupervised grace now s' h.healthy h.unwatched h.timed)

mark_client_ready-IsSupervised :
    (grace : ℕ) (name : ClientName) (s : RecoveryState)
    → IsSupervised grace s
    → IsSupervised grace (mark_client_ready name s)
unfolding mark_client_ready
mark_client_ready-IsSupervised grace name s h =
    let grow = λ (up : s.ready ≡ true). size-add name s.connected (h.joined up) in
    branch (IsSupervised grace) s.closed (λ e. h)
      (λ e.
        branch (IsSupervised grace) (not (size (add name s.connected) == 6))
          (λ e'. record {
            joined = grow;
            healthy = h.healthy;
            unwatched = h.unwatched;
            timed = h.timed;
          })
          (λ e'. record {
            joined = grow;
            healthy = h.healthy;
            unwatched = h.unwatched;
            timed = h.timed;
          }))

continue_ready-IsSupervised :
    (grace now : ℕ) (success : Bool) (n : ℕ) (s : RecoveryState)
    → IsSupervised grace s
    → IsSupervised grace (continue_ready grace now success n s)
unfolding continue_ready
continue_ready-IsSupervised grace now success zero s h = h
continue_ready-IsSupervised grace now true (suc n) s h =
    continue_ready-IsSupervised grace now true n (update_state grace now s)
      (update_state-IsSupervised grace now s h.healthy h.unwatched h.timed)
continue_ready-IsSupervised grace now false (suc n) s h =
    continue_ready-IsSupervised grace now false n (mark_client_unavailable grace now s)
      (mark_client_unavailable-IsSupervised grace now s h)

continue_start-IsSupervised :
    (grace now : ℕ) (success : Bool) (s : RecoveryState)
    → IsSupervised grace s
    → IsSupervised grace (continue_start grace now success s)
continue_start-IsSupervised grace now success s h =
    let s' : RecoveryState = record s { accepts_ready_events = true; starting = false } in
    branch (IsSupervised grace) (s.starting && success)
      (λ e. update_state-IsSupervised grace now s' h.healthy h.unwatched h.timed)
      (λ e. record {
        joined = h.joined;
        healthy = h.healthy;
        unwatched = h.unwatched;
        timed = h.timed;
      })

resubscribed-IsSupervised :
    (grace now : ℕ) (success : Bool) (s : RecoveryState)
    → IsSupervised grace s
    → IsSupervised grace (resubscribed grace now success s)
unfolding resubscribed
resubscribed-IsSupervised grace now success s h =
    let s' : RecoveryState = record s { resubscribing = false; waiting = 0 } in
    let h' : IsSupervised grace s' = record {
      joined = h.joined;
      healthy = h.healthy;
      unwatched = h.unwatched;
      timed = h.timed;
    } in
    continue_ready-IsSupervised grace now success s.waiting (continue_start grace now success s')
      (continue_start-IsSupervised grace now success s' h')

watchdog_fires-IsSupervised :
    (grace now : ℕ) (s : RecoveryState)
    → IsSupervised grace s
    → IsSupervised grace (watchdog_fires now s)
unfolding watchdog_fires
watchdog_fires-IsSupervised grace now s h =
    let joined = h.joined in
    let healthy = h.healthy in
    let unwatched = h.unwatched in
    let timed = h.timed in
    record {
      joined = λ up. ground (arith, joined);
      healthy = λ up. ground (arith, healthy);
      unwatched = λ up. ground (arith, unwatched);
      timed = ground (arith, timed);
    }

on_event-IsSupervised :
    (grace now : ℕ) (e : Event) (s : RecoveryState)
    → IsSupervised grace s
    → IsSupervised grace (on_event grace now e s)
unfolding on_event
on_event-IsSupervised grace now started s h = record {
  joined = λ up. refl;
  healthy = h.healthy;
  unwatched = h.unwatched;
  timed = h.timed;
}
on_event-IsSupervised grace now (client_ready name) s h =
    branch (IsSupervised grace) s.accepts_ready_events
      (λ e. mark_client_ready-IsSupervised grace name s h) (λ e. h)
on_event-IsSupervised grace now (client_lost name) s h =
    mark_client_unavailable-IsSupervised grace now s h
on_event-IsSupervised grace now (reconnecting name) s h =
    mark_client_unavailable-IsSupervised grace now
      (record s { reconnect_count = s.reconnect_count + 1 })
      (record { joined = h.joined; healthy = h.healthy; unwatched = h.unwatched; timed = h.timed })
on_event-IsSupervised grace now (resubscription success) s h =
    branch (IsSupervised grace) s.resubscribing
      (λ e. resubscribed-IsSupervised grace now success s h) (λ e. h)
on_event-IsSupervised grace now timer s h = watchdog_fires-IsSupervised grace now s h
on_event-IsSupervised grace now closing s h = record {
  joined = h.joined;
  healthy = h.healthy;
  unwatched = λ up. refl;
  timed = refl;
}

-- After any events of a supervisor for which this holds at first, a ready gateway has all six clients, no outage and no timer, and a
-- timer runs out a grace period after the beginning of the outage that goes on.
pub on_events-IsSupervised :
    (grace : ℕ) (es : List (ℕ × Event)) (s : RecoveryState)
    → IsSupervised grace s
    → IsSupervised grace (on_events grace es s)
unfolding on_events
on_events-IsSupervised grace [] s h = h
on_events-IsSupervised grace ((now, e) ∷ es) s h =
    on_events-IsSupervised grace es (on_event grace now e s) (on_event-IsSupervised grace now e s h)

-- ===== src/Chat/Recovery/Outage.antt =====
-- How long an outage lasts, and when the gateway asks to be restarted.
use arctic_rss.Prelude.{
  ℕ, zero, suc, ◌+◌, ◌≤◌, ◌≡◌, ◌≢◌, subst, inl, inr, Bool, true, false, some, List, [], ◌∷◌, ◌&&◌,
  not, leb, ◌==◌, arith, Bool-cases, Option-cases, branch, All,
}
use arctic_rss.Chat.Recovery.{
  ClientName, same_client, Connected, size, RecoveryState, update_state, mark_client_unavailable,
  mark_client_ready, continue_ready, continue_start, resubscribed, watchdog_fires, Event, started,
  client_ready, client_lost, reconnecting, resubscription, timer, closing, on_event, on_events,
}
use arctic_rss.Chat.Recovery.Restarts.{on_event-restarts}
use arctic_rss.Chat.Recovery.Readiness.{IsSupervised, on_events-IsSupervised}

-- A client is not connected, and the gateway is not ready.
pub record IsOut (name : ClientName) (s : RecoveryState) : Type 0 where
  pub missing : s.connected name ≡ false
  pub unready : s.ready ≡ false

size-missing : (name : ClientName) (c : Connected) → c name ≡ false → (size c == 6) ≡ false
size-missing name c h = ground arith

update_state-IsOut :
    (grace now : ℕ) (name : ClientName) (s : RecoveryState)
    → IsOut name s
    → IsOut name (update_state grace now s)
unfolding update_state
update_state-IsOut grace now name s h =
    let few = size-missing name s.connected h.missing in
    let unready = h.unready in
    record { missing = ground (arith, few, h.missing); unready = ground (arith, few) }

unavailable-IsOut :
    (grace now : ℕ) (name : ClientName) (s : RecoveryState)
    → s.closed ≡ false
    → IsOut name (mark_client_unavailable grace now s)
unfolding mark_client_unavailable update_state
unavailable-IsOut grace now name s h = record { missing = ground arith; unready = ground arith }

kept_unavailable-IsOut :
    (grace now : ℕ) (name : ClientName) (s : RecoveryState)
    → IsOut name s
    → IsOut name (mark_client_unavailable grace now s)
unfolding mark_client_unavailable
kept_unavailable-IsOut grace now name s h = elim (Bool-cases s.closed) [
  | inl closed ↦ simp (mark_client_unavailable, closed) h
  | inr on ↦ unavailable-IsOut grace now name s on
]

continue_ready-IsOut :
    (grace now : ℕ) (success : Bool) (n : ℕ) (name : ClientName) (s : RecoveryState)
    → IsOut name s
    → IsOut name (continue_ready grace now success n s)
unfolding continue_ready
continue_ready-IsOut grace now success zero name s h = h
continue_ready-IsOut grace now true (suc n) name s h =
    continue_ready-IsOut grace now true n name (update_state grace now s)
      (update_state-IsOut grace now name s h)
continue_ready-IsOut grace now false (suc n) name s h =
    continue_ready-IsOut grace now false n name (mark_client_unavailable grace now s)
      (kept_unavailable-IsOut grace now name s h)

resubscribed-IsOut :
    (grace now : ℕ) (success : Bool) (name : ClientName) (s : RecoveryState)
    → IsOut name s
    → IsOut name (resubscribed grace now success s)
unfolding resubscribed
resubscribed-IsOut grace now success name s h =
    let s' : RecoveryState = record s { resubscribing = false; waiting = 0 } in
    let up : RecoveryState = record s' { accepts_ready_events = true; starting = false } in
    continue_ready-IsOut grace now success s.waiting name (continue_start grace now success s') (
      branch (IsOut name) (s.starting && success)
        (λ e.
          update_state-IsOut grace now name up
            (record { missing = h.missing; unready = h.unready }))
        (λ e. record { missing = h.missing; unready = h.unready }))

other_ready-IsOut :
    (name other : ClientName) (s : RecoveryState)
    → same_client other name ≡ false
    → IsOut name s
    → IsOut name (mark_client_ready other s)
unfolding mark_client_ready
other_ready-IsOut name other s e h =
    let missing = h.missing in
    record { missing = ground (arith, missing); unready = ground (arith, h.unready) }

-- Anything but a new start and a `ready` of the client.
abbrev leaves_out : ClientName → Event → Bool
leaves_out name started = false
leaves_out name (client_ready other) = not (same_client other name)
leaves_out name _ = true

on_event-IsOut :
    (grace now : ℕ) (e : Event) (name : ClientName) (s : RecoveryState)
    → leaves_out name e ≡ true
    → IsOut name s
    → IsOut name (on_event grace now e s)
unfolding on_event watchdog_fires
on_event-IsOut grace now started name s l h = cc
on_event-IsOut grace now (client_ready other) name s l h =
    branch (IsOut name) s.accepts_ready_events
      (λ e. other_ready-IsOut name other s (ground arith) h) (λ e. h)
on_event-IsOut grace now (client_lost other) name s l h = kept_unavailable-IsOut grace now name s h
on_event-IsOut grace now (reconnecting other) name s l h =
    kept_unavailable-IsOut grace now name (record s { reconnect_count = s.reconnect_count + 1 })
      (record { missing = h.missing; unready = h.unready })
on_event-IsOut grace now (resubscription success) name s l h =
    branch (IsOut name) s.resubscribing (λ e. resubscribed-IsOut grace now success name s h)
      (λ e. h)
on_event-IsOut grace now timer name s l h = record {
  missing = ground (arith, h.missing);
  unready = ground (arith, h.unready);
}
on_event-IsOut grace now closing name s l h = record { missing = h.missing; unready = h.unready }

on_events-IsOut :
    (grace : ℕ) (es : List (ℕ × Event)) (name : ClientName) (s : RecoveryState)
    → All (λ e. leaves_out name e.1 ≡ true) es
    → IsOut name s
    → IsOut name (on_events grace es s)
unfolding on_events
on_events-IsOut grace [] name s l h = h
on_events-IsOut grace ((now, e) ∷ es) name s (l, ls) h =
    on_events-IsOut grace es name (on_event grace now e s) ls
      (on_event-IsOut grace now e name s l h)

-- Once any client of a supervisor that is not closed is lost, the gateway is not ready until each of
-- the six clients, also those that were never lost, has reported `ready` again or the supervisor is
-- started again.
pub outage_lasts :
    (grace now : ℕ) (lost name : ClientName) (es : List (ℕ × Event)) (s : RecoveryState)
    → s.closed ≡ false
    → All (λ e. leaves_out name e.1 ≡ true) es
    → (on_events grace ((now, client_lost lost) ∷ es) s).ready ≡ false
unfolding on_events on_event
outage_lasts grace now lost name es s open_ l =
    let out = unavailable-IsOut grace now name s open_ in
    (on_events-IsOut grace es name (mark_client_unavailable grace now s) l out).unready

outage_began :
    (grace now t : ℕ) (s : RecoveryState)
    → IsSupervised grace s
    → s.watchdog ≡ some t
    → leb t now ≡ true
    → (since : ℕ) × ((s.degraded_since ≡ some since) × (since + grace ≤ now))
outage_began grace now t s h on due =
    let timed = h.timed in
    elim (Option-cases s.degraded_since) [
      | inl never ↦ absurd (ground arith)
      | inr (since, e) ↦ (since, (e, ground arith))
    ]

timer_justified :
    (grace now : ℕ) (s : RecoveryState)
    → IsSupervised grace s
    → (on_event grace now timer s).restarts ≢ s.restarts
    → (s.ready ≡ false)
      × (s.closed ≡ false)
      × ((since : ℕ) × ((s.degraded_since ≡ some since) × (since + grace ≤ now)))
unfolding on_event watchdog_fires
timer_justified grace now s h changed = elim (Option-cases s.watchdog) [
  | inl off ↦ absurd (changed (ground arith))
  | inr (t, on) ↦ elim (Bool-cases (leb t now)) [
    | inr early ↦ absurd (changed (ground arith))
    | inl due ↦ elim (Bool-cases s.closed) [
      | inl closed ↦ absurd (changed (ground arith))
      | inr going ↦ (ground (arith, h.unwatched), going, outage_began grace now t s h on due)
    ]
  ]
]

-- Whatever events a supervised gateway has seen, an event asks for a restart only if it is the timer,
-- and the gateway is not ready and not closed, in an outage that has lasted the whole grace period.
pub restart_justified :
    (grace now : ℕ) (es : List (ℕ × Event)) (e : Event) (s : RecoveryState)
    → IsSupervised grace s
    → (on_event grace now e (on_events grace es s)).restarts ≢ (on_events grace es s).restarts
    → (e ≡ timer)
      × ((on_events grace es s).ready ≡ false)
      × ((on_events grace es s).closed ≡ false)
      × ((since : ℕ) × (((on_events grace es s).degraded_since ≡ some since)
            × (since + grace ≤ now)))
restart_justified grace now es e s h changed =
    let s' = on_events grace es s in
    elim (on_event-restarts grace now e s') [
      | inr same ↦ absurd (changed same)
      | inl fired ↦
          let (unready, open_, lasting) =
            timer_justified grace now s' (on_events-IsSupervised grace es s h)
              (subst (λ x. (on_event grace now x s').restarts ≢ s'.restarts) fired changed) in
          (fired, unready, open_, lasting)
    ]

-- ===== src/Chat/Recovery/Tests.antt =====
-- A gateway that starts, loses one client and gets it back.
use arctic_rss.Prelude.{ℕ, ◌+◌, ◌≤◌, ◌≡◌, ◌≢◌, refl, true, false, some, List, [], ◌∷◌, arith}
use arctic_rss.Chat.Recovery.{
  RecoveryState, initial, Event, started, client_ready, client_lost, resubscription, timer, command,
  room_events, on_event, on_events, update_state, mark_client_unavailable, resubscribed,
  continue_ready, watchdog_fires,
}
use arctic_rss.Chat.Recovery.Readiness.{IsSupervised, on_events-IsSupervised}
use arctic_rss.Chat.Recovery.Outage.{outage_lasts, restart_justified}

abbrev start_up : List (ℕ × Event)
start_up = (0, started) ∷ (10, resubscription true) ∷ []

abbrev running : RecoveryState
running = record initial { accepts_ready_events = true; ready = true; connected = λ name. true }

started_up : on_events 500 start_up initial ≡ running
unfolding on_events on_event update_state resubscribed continue_ready
started_up = refl

abbrev degraded : RecoveryState
degraded = record running {
  ready = false;
  connected = λ name. false;
  degraded_since = some 20;
  watchdog = some 520;
}

lost : on_event 500 20 (client_lost command) running ≡ degraded
unfolding on_event mark_client_unavailable update_state
lost = refl

initial-IsSupervised : IsSupervised 500 initial
initial-IsSupervised = record {
  joined = λ h. cc;
  healthy = λ h. refl;
  unwatched = λ h. refl;
  timed = refl;
}

on_events-IsSupervised_example : IsSupervised 500 (on_events 500 start_up initial)
on_events-IsSupervised_example = on_events-IsSupervised 500 start_up initial initial-IsSupervised

abbrev back : List (ℕ × Event)
back = (30, client_ready command) ∷ (40, timer) ∷ []

outage_lasts_example : (on_events 500 ((20, client_lost command) ∷ back) running).ready ≡ false
outage_lasts_example = outage_lasts 500 20 command room_events back running refl (refl, (refl, tt))

abbrev outage : List (ℕ × Event)
outage = (0, started) ∷ (10, resubscription true) ∷ (20, client_lost command) ∷ []

in_outage : on_events 500 outage initial ≡ degraded
unfolding on_events on_event update_state resubscribed continue_ready mark_client_unavailable
in_outage = refl

no_restart : (on_events 500 outage initial).restarts ≡ 0
no_restart = rw in_outage refl

one_restart : (on_event 500 600 timer (on_events 500 outage initial)).restarts ≡ 1
unfolding on_event watchdog_fires
one_restart = rw in_outage refl

restarted :
    (on_event 500 600 timer (on_events 500 outage initial)).restarts
    ≢ (on_events 500 outage initial).restarts
restarted h = omega (arith, one_restart, no_restart, h)

restart_justified_example :
    (timer ≡ timer)
    × ((on_events 500 outage initial).ready ≡ false)
    × ((on_events 500 outage initial).closed ≡ false)
    × ((since : ℕ) × (((on_events 500 outage initial).degraded_since ≡ some since)
          × (since + 500 ≤ 600)))
restart_justified_example =
    restart_justified 500 600 outage timer initial initial-IsSupervised restarted

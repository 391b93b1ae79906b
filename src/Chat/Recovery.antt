-- ===== src/Chat/Recovery.antt =====
-- The supervisor of the gateway's Redis clients (createRedisRecoverySupervisor in
-- services/chat-gateway/redis-recovery.ts). The closures share one state; what the event loop holds of
-- them, a start or calls of markClientReady that await the resubscription, and a timer, is part of it.
pub mod Readiness
pub mod Restarts
pub mod Outage
mod Tests
use arctic_rss.Prelude.{
  ℕ, zero, suc, ◌+◌, Bool, true, false, Option, none, some, List, [], ◌∷◌, ◌&&◌, ◌||◌, not,
  if◌then◌else◌, keep, length, leb, ◌==◌,
}

pub data ClientName : Type 0 where
  command adapter_publisher adapter_subscriber block_events room_events security_events : ClientName

abbrev client_names : List ClientName
client_names =
    command ∷ adapter_publisher ∷ adapter_subscriber ∷ block_events ∷ room_events ∷ security_events
    ∷ []

abbrev pub same_client : ClientName → ClientName → Bool
same_client command command = true
same_client adapter_publisher adapter_publisher = true
same_client adapter_subscriber adapter_subscriber = true
same_client block_events block_events = true
same_client room_events room_events = true
same_client security_events security_events = true
same_client _ _ = false

-- The set of the connected clients.
abbrev pub Connected : Type 0
Connected = ClientName → Bool

abbrev pub size : Connected → ℕ
size connected = length (keep connected client_names)

abbrev pub add : ClientName → Connected → Connected
add name connected = λ other. same_client name other || connected other

pub record RecoveryState : Type 0 where
  pub closed : Bool
  pub degraded_since : Option ℕ
  pub ready : Bool
  pub reconnect_count : ℕ
  pub watchdog : Option ℕ
  pub resubscribing : Bool
  pub accepts_ready_events : Bool
  pub connected : Connected
  pub starting : Bool
  pub waiting : ℕ
  pub restarts : ℕ

abbrev pub initial : RecoveryState
initial = record {
  closed = false;
  degraded_since = none;
  ready = false;
  reconnect_count = 0;
  watchdog = none;
  resubscribing = false;
  accepts_ready_events = false;
  connected = λ name. false;
  starting = false;
  waiting = 0;
  restarts = 0;
}

abbrev same_bool : Bool → Bool → Bool
same_bool true b = b
same_bool false b = not b

abbrev begin_outage : ℕ → ℕ → RecoveryState → RecoveryState
begin_outage grace now s = elim s.degraded_since [
  | none ↦ record s { ready = false; degraded_since = some now; watchdog = some (now + grace) }
  | some since ↦ record s { ready = false }
]

unfoldable pub update_state : ℕ → ℕ → RecoveryState → RecoveryState
update_state grace now s =
    let next_ready = size s.connected == length client_names && not s.resubscribing in
    if same_bool next_ready s.ready
    then s
    else if next_ready
    then record s { ready = true; degraded_since = none; watchdog = none }
    else begin_outage grace now s

unfoldable pub mark_client_unavailable : ℕ → ℕ → RecoveryState → RecoveryState
unfolding update_state
mark_client_unavailable grace now s =
    if s.closed then s else update_state grace now (record s { connected = λ name. false })

-- Up to the await; a resubscription that runs already is awaited.
unfoldable pub mark_client_ready : ClientName → RecoveryState → RecoveryState
mark_client_ready name s =
    let connected = add name s.connected in
    let s' : RecoveryState = record s { connected = connected } in
    if s.closed
    then s
    else if not (size connected == length client_names)
    then s'
    else record s' { resubscribing = true; waiting = s.waiting + 1 }

-- The calls of markClientReady that awaited the resubscription go on, one after the other.
unfoldable pub continue_ready : ℕ → ℕ → Bool → ℕ → RecoveryState → RecoveryState
continue_ready grace now success zero s = s
continue_ready grace now success (suc n) s =
    continue_ready grace now success n
      (if success then update_state grace now s else mark_client_unavailable grace now s)

-- `start` goes on, or throws.
abbrev pub continue_start : ℕ → ℕ → Bool → RecoveryState → RecoveryState
continue_start grace now success s =
    if s.starting && success
    then update_state grace now (record s { accepts_ready_events = true; starting = false })
    else record s { starting = false }

unfoldable pub resubscribed : ℕ → ℕ → Bool → RecoveryState → RecoveryState
unfolding continue_ready
resubscribed grace now success s =
    let s' : RecoveryState = record s { resubscribing = false; waiting = 0 } in
    continue_ready grace now success s.waiting (continue_start grace now success s')

-- Every client is connected and has answered: `start` up to the await of the resubscription.
abbrev pub start : RecoveryState → RecoveryState
start s = record s { connected = λ name. true; resubscribing = true; starting = true }

unfoldable pub watchdog_fires : ℕ → RecoveryState → RecoveryState
watchdog_fires now s = elim s.watchdog [
  | none ↦ s
  | some deadline ↦
      if leb deadline now
      then record s {
        watchdog = none;
        restarts = if not s.closed && not s.ready then s.restarts + 1 else s.restarts;
      }
      else s
]

abbrev pub close : RecoveryState → RecoveryState
close s = record s { closed = true; watchdog = none }

pub data Event : Type 0 where
  started : Event
  client_ready : ClientName → Event
  client_lost reconnecting : ClientName → Event
  resubscription : Bool → Event
  timer : Event
  closing : Event

-- What an event does at a time. The events `close`, `end` and `error` of a client do the same.
unfoldable pub on_event : ℕ → ℕ → Event → RecoveryState → RecoveryState
on_event grace now started s = start s
on_event grace now (client_ready name) s =
    if s.accepts_ready_events then mark_client_ready name s else s
on_event grace now (client_lost name) s = mark_client_unavailable grace now s
on_event grace now (reconnecting name) s =
    mark_client_unavailable grace now (record s { reconnect_count = s.reconnect_count + 1 })
on_event grace now (resubscription success) s =
    if s.resubscribing then resubscribed grace now success s else s
on_event grace now timer s = watchdog_fires now s
on_event grace now closing s = close s

-- Events at their times.
unfoldable pub on_events : ℕ → List (ℕ × Event) → RecoveryState → RecoveryState
on_events grace [] s = s
on_events grace ((now, e) ∷ es) s = on_events grace es (on_event grace now e s)

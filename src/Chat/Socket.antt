-- ===== src/Chat/Socket.antt =====
-- The operations of one socket (attachSocketHandlers, handleSubscribe, handleMessage, handleReadMarker
-- and runSocketOperation in services/chat-gateway/native-chat.ts). An operation is cut where the code
-- awaits: what is left of it waits among the others, and the answers come in any order. What the rate
-- limiter, the service, the presence store and the socket answer is an argument.
pub mod Rooms
pub mod Operations
pub mod Universe
pub mod Limits
pub mod Presence
mod Tests
use arctic_rss.Prelude.{
  ℕ, zero, suc, ◌+◌, ◌-◌, ◌*◌, String, Bool, true, false, Option, none, some, List, [], ◌∷◌, ◌++◌,
  any, keep, length, leb, not, ◌&&◌, str_eq, if◌then◌else◌,
}
use arctic_rss.Chat.Abuse.{
  AbuseSettings, Controls, new_controls, has, finish_operation, is_room_limit_reached,
  record_malformed_event, try_start_operation,
}

-- `add` and `delete` of a set.
abbrev pub add : String → List String → List String
add room rooms = if has room rooms then rooms else rooms ++ room ∷ []

abbrev pub delete : String → List String → List String
delete room rooms = keep (λ r. not (str_eq room r)) rooms

abbrev pub is_empty : List String → Bool
is_empty [] = true
is_empty _ = false

-- A request whose payload has the right form; a subscription names the slug of a room, and the other
-- two operations, a message and a read marker, do not touch the rooms.
pub data Request : Type 0 where
  subscribe unsubscribe : String → Request
  message read : Request

-- What an operation waits for: the rate limiter, the snapshot of a room, the presence mark and the
-- join of a room, the leave of a room, the presence clear, the limiter of messages, or the service.
pub data Pending : Type 0 where
  limited : Request → Pending
  resolving clearing checking serving : Pending
  joining leaving : String → Pending

pub data Answer : Type 0 where
  allowed : Bool → Answer
  snapshot : String → Answer
  settled thrown : Answer

pub data Reply : Type 0 where
  fine too_many_operations rate_limited room_limit request_rejected : Reply

pub record SocketState : Type 0 where
  pub controls : Controls
  pub subscribed_room_ids : List String
  pub heartbeat : Bool
  pub pending : List Pending
  pub replies : List Reply

abbrev pub new_socket : SocketState
new_socket = record {
  controls = new_controls;
  subscribed_room_ids = [];
  heartbeat = false;
  pending = [];
  replies = [];
}

-- `add` and `start` at the end of a subscription, and `delete` and `stop` in an unsubscription.
abbrev pub subscribed : String → SocketState → SocketState
subscribed room s = record s {
  subscribed_room_ids = add room s.subscribed_room_ids;
  heartbeat = if has room s.subscribed_room_ids then s.heartbeat else true;
}

abbrev pub unsubscribed : String → SocketState → SocketState
unsubscribed room s =
    let rooms = delete room s.subscribed_room_ids in
    record s {
      subscribed_room_ids = rooms;
      heartbeat = if has room s.subscribed_room_ids && is_empty rooms then false else s.heartbeat;
    }

abbrev pub await : Pending → SocketState → SocketState
await p s = record s { pending = p ∷ s.pending }

abbrev pub reply : Reply → SocketState → SocketState
reply r s = record s { replies = r ∷ s.replies }

-- An operation that ends replies, and its `finally` block runs.
abbrev finish : Reply → SocketState → SocketState
finish r s = record s { controls = finish_operation s.controls; replies = r ∷ s.replies }

-- Where the rate limiter allows the operation, or is not asked.
pub run_request : AbuseSettings → Request → SocketState → SocketState
run_request settings (subscribe slug) s =
    if is_room_limit_reached settings slug s.subscribed_room_ids
    then finish room_limit s
    else await resolving s
run_request settings (unsubscribe room) s = await (leaving room) s
run_request settings message s = await checking s
run_request settings read s = await serving s

-- What a waiting operation does with the answer; one that does not fit is an exception.
pub resume : AbuseSettings → Pending → Answer → SocketState → SocketState
unfolding run_request
resume settings (limited request) (allowed true) s = run_request settings request s
resume settings (limited request) (allowed false) s = finish rate_limited s
resume settings resolving (snapshot room) s =
    if is_room_limit_reached settings room s.subscribed_room_ids
    then finish room_limit s
    else await (joining room) s
resume settings (joining room) settled s = finish fine (subscribed room s)
resume settings (leaving room) settled s = await clearing (unsubscribed room s)
resume settings clearing settled s = finish fine s
resume settings checking (allowed true) s = await serving s
resume settings checking (allowed false) s = finish rate_limited s
resume settings serving settled s = finish fine s
resume settings _ _ s = finish request_rejected s

abbrev pub uses_limiter : Request → Bool
uses_limiter message = false
uses_limiter _ = true

-- `runSocketOperation` up to its first await.
pub run_socket_operation : AbuseSettings → Request → SocketState → SocketState
unfolding run_request
run_socket_operation settings request s =
    let (started, c) = try_start_operation settings s.controls in
    let s' : SocketState = record s { controls = c } in
    if not started
    then reply too_many_operations s
    else if uses_limiter request
    then await (limited request) s'
    else run_request settings request s'

-- The operation at a position, and the others.
pub pick : ℕ → List Pending → Option (Pending × List Pending)
pick i [] = none
pick zero (p ∷ ps) = some (p, ps)
pick (suc i) (p ∷ ps) = elim (pick i ps) [ none ↦ none | some (q, qs) ↦ some (q, p ∷ qs) ]

-- A request, an event of an unknown name, a payload of the wrong form, an answer, the disconnection.
pub data Event : Type 0 where
  requested : Request → Event
  unknown malformed : Event
  answered : ℕ → Answer → Event
  disconnected : Event

unfoldable pub on_event : AbuseSettings → Event → SocketState → SocketState
unfolding resume run_socket_operation pick
on_event settings (requested request) s = run_socket_operation settings request s
on_event settings unknown s = record s { controls = record_malformed_event settings s.controls }
on_event settings malformed s =
    reply request_rejected (record s { controls = record_malformed_event settings s.controls })
on_event settings (answered i answer) s = elim (pick i s.pending) [
  | none ↦ s
  | some (p, rest) ↦ resume settings p answer (record s { pending = rest })
]
on_event settings disconnected s = record s { subscribed_room_ids = []; heartbeat = false }

unfoldable pub on_events : AbuseSettings → List Event → SocketState → SocketState
on_events settings [] s = s
on_events settings (e ∷ es) s = on_events settings es (on_event settings e s)

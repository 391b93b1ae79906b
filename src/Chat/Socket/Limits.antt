-- ===== src/Chat/Socket/Limits.antt =====
-- How many rooms a socket can subscribe to, whatever runs in between.
use arctic_rss.Prelude.{
  ℕ, suc, ◌+◌, ◌-◌, ◌≤◌, ◌≡◌, refl, inl, inr, String, true, false, some, List, [], ◌∷◌, length, leb,
  arith, Option-cases, Bool-cases,
}
use arctic_rss.Chat.Abuse.{AbuseSettings, is_room_limit_reached}
use arctic_rss.Chat.Socket.{
  Request, Pending, Answer, SocketState, Event, requested, unknown, malformed, answered,
  disconnected, new_socket, run_request, uses_limiter, resume, run_socket_operation, pick, on_event,
  on_events, subscribe, unsubscribe, message, read, limited, resolving, clearing, checking, serving,
  joining, leaving, allowed, snapshot, settled,
}
use arctic_rss.Chat.Socket.Operations.{IsCounted, pick-IsRunning, on_event-IsCounted}
use arctic_rss.Chat.Socket.Rooms.{IsDistinct, distinct_length}
use arctic_rss.Chat.Socket.Universe.{
  joining_rooms, has-pick, IsBounded, IsBoundedState, enter-IsBounded, leave_op-IsBounded,
  join-IsBounded, leave-IsBounded,
}

run_request-IsBounded :
    (settings : AbuseSettings) (r : Request) (s : SocketState)
    → IsBoundedState settings s
    → IsBoundedState settings (run_request settings r s)
unfolding run_request
run_request-IsBounded settings (subscribe slug) s b =
    elim (Bool-cases (is_room_limit_reached settings slug s.subscribed_room_ids)) [
      | inl full ↦ rw full b
      | inr free ↦ rw free b
    ]
run_request-IsBounded settings (unsubscribe room) s b = b
run_request-IsBounded settings message s b = b
run_request-IsBounded settings read s b = b

resume-IsBounded :
    (settings : AbuseSettings) (p : Pending) (a : Answer) (s : SocketState)
    → suc (length s.pending) ≤ settings.max_outstanding_operations
    → IsBounded settings (joining_rooms (p ∷ s.pending)) s.subscribed_room_ids
    → IsBoundedState settings (resume settings p a s)
unfolding resume
resume-IsBounded settings (limited r) (allowed true) s l b = run_request-IsBounded settings r s b
resume-IsBounded settings resolving (snapshot room) s l b =
    elim (Bool-cases (is_room_limit_reached settings room s.subscribed_room_ids)) [
      | inl full ↦ rw full b
      | inr free ↦ rw free (enter-IsBounded settings room s.pending s.subscribed_room_ids l free b)
    ]
resume-IsBounded settings (joining room) settled s l b =
    join-IsBounded settings room (joining_rooms s.pending) s.subscribed_room_ids b
resume-IsBounded settings (leaving room) settled s l b =
    leave-IsBounded settings room (joining_rooms s.pending) s.subscribed_room_ids b
resume-IsBounded settings clearing settled s l b = b
resume-IsBounded settings checking (allowed true) s l b = b
resume-IsBounded settings checking (allowed false) s l b = b
resume-IsBounded settings serving settled s l b = b
resume-IsBounded settings p a s l b =
    leave_op-IsBounded settings p s.pending s.subscribed_room_ids b

run_socket_operation-IsBounded :
    (settings : AbuseSettings) (r : Request) (s : SocketState)
    → IsBoundedState settings s
    → IsBoundedState settings (run_socket_operation settings r s)
unfolding run_socket_operation
run_socket_operation-IsBounded settings r s b =
    let most = settings.max_outstanding_operations in
    elim (Bool-cases (leb most s.controls.outstanding_operations)) [
      | inl full ↦ rw full b
      | inr free ↦ elim (Bool-cases (uses_limiter r)) [
        | inl limiter ↦ rw (free, limiter) b
        | inr direct ↦ rw (free, direct) (run_request-IsBounded settings r _ b)
      ]
    ]

pick-IsBounded :
    (settings : AbuseSettings) (i : ℕ) (ps : List Pending) (rooms : List String) {p : Pending}
    {rest : List Pending}
    → pick i ps ≡ some (p, rest)
    → IsBounded settings (joining_rooms ps) rooms
    → IsBounded settings (joining_rooms (p ∷ rest)) rooms
pick-IsBounded settings i ps rooms e b = record {
  universe = b.universe;
  distinct = b.distinct;
  rooms_within = b.rooms_within;
  joins_within = λ r h. b.joins_within r (has-pick i ps r e h);
  bound = b.bound;
}

on_event-IsBounded :
    (settings : AbuseSettings) (e : Event) (s : SocketState)
    → IsCounted settings s
    → IsBoundedState settings s
    → IsBoundedState settings (on_event settings e s)
unfolding on_event
on_event-IsBounded settings (requested r) s c b = run_socket_operation-IsBounded settings r s b
on_event-IsBounded settings unknown s c b = b
on_event-IsBounded settings malformed s c b = b
on_event-IsBounded settings (answered i a) s c b = elim (Option-cases (pick i s.pending)) [
  | inl e ↦ rw (e, on_event) b
  | inr ((p, rest), e) ↦
      let s' : SocketState = record s { pending = rest } in
      let running = pick-IsRunning settings i s c e in
      let b' = pick-IsBounded settings i s.pending s.subscribed_room_ids e b in
      rw (e, on_event) (resume-IsBounded settings p a s' running.limited b')
]
on_event-IsBounded settings disconnected s c b = record {
  universe = b.universe;
  distinct = tt;
  rooms_within = λ r h. absurd cc;
  joins_within = b.joins_within;
  bound = b.bound;
}

on_events-IsBounded :
    (settings : AbuseSettings) (es : List Event) (s : SocketState)
    → IsCounted settings s
    → IsBoundedState settings s
    → IsBoundedState settings (on_events settings es s)
unfolding on_events
on_events-IsBounded settings [] s c b = b
on_events-IsBounded settings (e ∷ es) s c b =
    on_events-IsBounded settings es (on_event settings e s) (on_event-IsCounted settings e s c)
      (on_event-IsBounded settings e s c b)

-- A new socket, after any events and answers in any order, holds each room once, and at most its
-- limit of rooms and as many more as operations can overlap with one: the check of the limit and the
-- entry into the set are apart.
pub rooms_bounded :
    (settings : AbuseSettings) (es : List Event)
    → IsDistinct (on_events settings es new_socket).subscribed_room_ids
      × (length (on_events settings es new_socket).subscribed_room_ids
          ≤ settings.max_rooms_per_socket + (settings.max_outstanding_operations - 1))
rooms_bounded settings es =
    let start : IsBoundedState settings new_socket = record {
      universe = [];
      distinct = tt;
      rooms_within = λ r h. h;
      joins_within = λ r h. h;
      bound = omega arith;
    } in
    let counted : IsCounted settings new_socket = record {
      counted = refl;
      limited = omega arith;
      asked = refl;
    } in
    let b = on_events-IsBounded settings es new_socket counted start in
    let few = distinct_length _ b.universe b.distinct b.rooms_within in
    (b.distinct, omega (arith, few, b.bound))

-- ===== src/Chat/Socket/Tests.antt =====
-- One socket that may hold one room and run two operations.
use arctic_rss.Prelude.{◌+◌, ◌-◌, ◌≤◌, ◌≡◌, refl, true, List, [], ◌∷◌, length, arith}
use arctic_rss.Chat.Abuse.{AbuseSettings}
use arctic_rss.Chat.Socket.{
  SocketState, joining, Event, requested, answered, disconnected, malformed, subscribe, allowed,
  snapshot, settled, new_socket, on_event, on_events, resume, run_request, run_socket_operation,
  pick,
}
use arctic_rss.Chat.Socket.Operations.{IsCounted, on_events-IsCounted}
use arctic_rss.Chat.Socket.Rooms.{IsDistinct}
use arctic_rss.Chat.Socket.Limits.{rooms_bounded}
use arctic_rss.Chat.Socket.Presence.{IsBeating, on_events-IsBeating, late_join_leaks}

abbrev small : AbuseSettings
small = record {
  max_event_payload_bytes = 65536;
  max_malformed_events = 1;
  max_outstanding_operations = 2;
  max_rooms_per_socket = 1;
}

-- Two subscriptions whose checks both run before either enters its room.
abbrev overlapping : List Event
overlapping =
    requested (subscribe "news")
    ∷ requested (subscribe "cats")
    ∷ answered 0 (allowed true)
    ∷ answered 1 (allowed true)
    ∷ answered 0 (snapshot "room-1")
    ∷ answered 1 (snapshot "room-2")
    ∷ answered 0 settled
    ∷ answered 0 settled
    ∷ []

limit_exceeded : length (on_events small overlapping new_socket).subscribed_room_ids ≡ 2
unfolding on_events on_event resume run_request run_socket_operation pick
limit_exceeded = refl

rooms_bounded_example :
    IsDistinct (on_events small overlapping new_socket).subscribed_room_ids
    × (length (on_events small overlapping new_socket).subscribed_room_ids ≤ 1 + (2 - 1))
rooms_bounded_example = rooms_bounded small overlapping

abbrev events : List Event
events = malformed ∷ overlapping

new_socket-IsCounted : IsCounted small new_socket
new_socket-IsCounted = record { counted = refl; limited = omega arith; asked = refl }

on_events-IsCounted_example : IsCounted small (on_events small events new_socket)
on_events-IsCounted_example = on_events-IsCounted small events new_socket new_socket-IsCounted

on_events-IsBeating_example : IsBeating (on_events small overlapping new_socket)
on_events-IsBeating_example = on_events-IsBeating small overlapping new_socket refl

abbrev joining_socket : SocketState
joining_socket = record new_socket { pending = joining "room-1" ∷ [] }

late_join_leaks_example :
    ((on_events small (disconnected ∷ answered 0 settled ∷ []) joining_socket).subscribed_room_ids
      ≡ "room-1" ∷ [])
    × ((on_events small (disconnected ∷ answered 0 settled ∷ []) joining_socket).heartbeat ≡ true)
unfolding pick
late_join_leaks_example = late_join_leaks small joining_socket 0 "room-1" [] refl

-- ===== src/Chat/Socket/Presence.antt =====
-- The heartbeat that keeps the presence of a socket in its rooms.
use arctic_rss.Prelude.{
  ℕ, ◌≡◌, refl, inl, inr, String, Bool, true, false, some, List, [], ◌∷◌, ◌++◌, not, if◌then◌else◌,
  arith, Option-cases, Bool-cases,
}
use arctic_rss.Chat.Abuse.{AbuseSettings, has}
use arctic_rss.Chat.Socket.{
  Request, Pending, Answer, SocketState, Event, requested, unknown, malformed, answered,
  disconnected, run_request, resume, run_socket_operation, pick, on_event, on_events, delete,
  is_empty, limited, joining, leaving, allowed, settled, subscribed, unsubscribed,
}

-- The heartbeat runs exactly if the socket is in a room.
abbrev pub IsBeating : SocketState → Type 0
IsBeating s = s.heartbeat ≡ not (is_empty s.subscribed_room_ids)

delete_absent : (x : String) (xs : List String) → has x xs ≡ false → delete x xs ≡ xs
delete_absent x [] h = refl
delete_absent x (y ∷ xs) h = ground (arith, delete_absent x xs)

is_empty-append : (x : String) (xs : List String) → is_empty (xs ++ x ∷ []) ≡ false
is_empty-append x [] = refl
is_empty-append x (y ∷ xs) = refl

subscribed-IsBeating :
    (room : String) (s : SocketState) → IsBeating s → IsBeating (subscribed room s)
subscribed-IsBeating room s h = elim (Bool-cases (has room s.subscribed_room_ids)) [
  | inl there ↦ rw there h
  | inr new ↦ rw (new, is_empty-append room s.subscribed_room_ids)
]

kept-IsBeating :
    (room : String) (rooms : List String) (heartbeat : Bool)
    → heartbeat ≡ not (is_empty rooms)
    → has room rooms ≡ true
    → (if is_empty (delete room rooms) then false else heartbeat)
      ≡ not (is_empty (delete room rooms))
kept-IsBeating room [] heartbeat h there = cc
kept-IsBeating room (r ∷ rooms) heartbeat h there = ground arith

unsubscribed-IsBeating :
    (room : String) (s : SocketState) → IsBeating s → IsBeating (unsubscribed room s)
unsubscribed-IsBeating room s h = elim (Bool-cases (has room s.subscribed_room_ids)) [
  | inl there ↦ rw there (kept-IsBeating room s.subscribed_room_ids s.heartbeat h there)
  | inr absent ↦ rw (absent, delete_absent room s.subscribed_room_ids absent) h
]

run_request-IsBeating :
    (settings : AbuseSettings) (r : Request) (s : SocketState)
    → IsBeating s
    → IsBeating (run_request settings r s)
unfolding run_request
run_request-IsBeating settings r s h = ground arith

resume-IsBeating :
    (settings : AbuseSettings) (p : Pending) (a : Answer) (s : SocketState)
    → IsBeating s
    → IsBeating (resume settings p a s)
unfolding resume
resume-IsBeating settings (joining room) settled s h = subscribed-IsBeating room s h
resume-IsBeating settings (leaving room) settled s h = unsubscribed-IsBeating room s h
resume-IsBeating settings (limited r) (allowed true) s h = run_request-IsBeating settings r s h
resume-IsBeating settings p a s h = ground arith

run_socket_operation-IsBeating :
    (settings : AbuseSettings) (r : Request) (s : SocketState)
    → IsBeating s
    → IsBeating (run_socket_operation settings r s)
unfolding run_socket_operation run_request
run_socket_operation-IsBeating settings r s h = ground arith

on_event-IsBeating :
    (settings : AbuseSettings) (e : Event) (s : SocketState)
    → IsBeating s
    → IsBeating (on_event settings e s)
unfolding on_event
on_event-IsBeating settings (requested r) s h = run_socket_operation-IsBeating settings r s h
on_event-IsBeating settings unknown s h = h
on_event-IsBeating settings malformed s h = h
on_event-IsBeating settings (answered i a) s h = elim (Option-cases (pick i s.pending)) [
  | inl e ↦ rw (e, on_event) h
  | inr ((p, rest), e) ↦
      let s' : SocketState = record s { pending = rest } in
      rw (e, on_event) (resume-IsBeating settings p a s' h)
]
on_event-IsBeating settings disconnected s h = refl

-- After any events and answers in any order, the disconnection among them, the heartbeat of a socket
-- runs exactly if the socket is in a room, if this holds at first.
pub on_events-IsBeating :
    (settings : AbuseSettings) (es : List Event) (s : SocketState)
    → IsBeating s
    → IsBeating (on_events settings es s)
unfolding on_events
on_events-IsBeating settings [] s h = h
on_events-IsBeating settings (e ∷ es) s h =
    on_events-IsBeating settings es (on_event settings e s) (on_event-IsBeating settings e s h)

-- A socket that is disconnected while it joins a room is in that room afterwards, and its heartbeat
-- runs.
pub late_join_leaks :
    (settings : AbuseSettings) (s : SocketState) (i : ℕ) (room : String) (rest : List Pending)
    → pick i s.pending ≡ some (joining room, rest)
    → let s' = on_events settings (disconnected ∷ answered i settled ∷ []) s in
      (s'.subscribed_room_ids ≡ room ∷ []) × (s'.heartbeat ≡ true)
unfolding on_events on_event resume
late_join_leaks settings s i room rest e = rw (e, on_event) (refl, refl)

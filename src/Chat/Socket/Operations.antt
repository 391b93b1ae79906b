-- ===== src/Chat/Socket/Operations.antt =====
-- The operations in flight on one socket, and its malformed events.
use arctic_rss.Prelude.{
  ℕ, zero, suc, ◌≤◌, ◌≡◌, inl, inr, some, List, [], ◌∷◌, length, leb, ltb, ◌&&◌, arith,
  Option-cases,
}
use arctic_rss.Chat.Abuse.{AbuseSettings}
use arctic_rss.Chat.Socket.{
  Request, Pending, Answer, SocketState, Event, requested, unknown, malformed, answered,
  disconnected, run_request, resume, run_socket_operation, pick, on_event, on_events,
}

length-pick :
    (i : ℕ) (ps : List Pending) {p : Pending} {rest : List Pending}
    → pick i ps ≡ some (p, rest)
    → length ps ≡ suc (length rest)
unfolding pick
length-pick i [] h = cc
length-pick zero (p ∷ ps) h = ground arith
length-pick (suc i) (p ∷ ps) h = elim (Option-cases (pick i ps)) [
  | inl e ↦ ground arith
  | inr ((q, qs), e) ↦ let l = length-pick i ps e in ground (arith, l)
]

-- The counter of the operations in flight is their number, within the limit; the controls ask for the
-- disconnection from the malformed event on that meets its limit.
pub record IsCounted (settings : AbuseSettings) (s : SocketState) : Type 0 where
  pub counted : s.controls.outstanding_operations ≡ length s.pending
  pub limited : length s.pending ≤ settings.max_outstanding_operations
  pub asked : s.controls.disconnect_asked ≡ (
      ltb 0 s.controls.malformed_event_count
      && leb settings.max_malformed_events s.controls.malformed_event_count)

-- The same while one more operation runs.
pub record IsRunning (settings : AbuseSettings) (s : SocketState) : Type 0 where
  pub counted : s.controls.outstanding_operations ≡ suc (length s.pending)
  pub limited : suc (length s.pending) ≤ settings.max_outstanding_operations
  pub asked : s.controls.disconnect_asked ≡ (
      ltb 0 s.controls.malformed_event_count
      && leb settings.max_malformed_events s.controls.malformed_event_count)

run_request-IsCounted :
    (settings : AbuseSettings) (r : Request) (s : SocketState)
    → IsRunning settings s
    → IsCounted settings (run_request settings r s)
unfolding run_request
run_request-IsCounted settings r s h =
    let counted = h.counted in
    let limited = h.limited in
    let asked = h.asked in
    record { counted = ground arith; limited = ground arith; asked = ground arith }

resume-IsCounted :
    (settings : AbuseSettings) (p : Pending) (a : Answer) (s : SocketState)
    → IsRunning settings s
    → IsCounted settings (resume settings p a s)
unfolding resume run_request
resume-IsCounted settings p a s h =
    let counted = h.counted in
    let limited = h.limited in
    let asked = h.asked in
    record { counted = ground arith; limited = ground arith; asked = ground arith }

run_socket_operation-IsCounted :
    (settings : AbuseSettings) (r : Request) (s : SocketState)
    → IsCounted settings s
    → IsCounted settings (run_socket_operation settings r s)
unfolding run_socket_operation run_request
run_socket_operation-IsCounted settings r s h =
    let counted = h.counted in
    let limited = h.limited in
    let asked = h.asked in
    record { counted = ground arith; limited = ground arith; asked = ground arith }

-- An operation that is taken out runs.
pub pick-IsRunning :
    (settings : AbuseSettings) (i : ℕ) (s : SocketState) {p : Pending} {rest : List Pending}
    → IsCounted settings s
    → pick i s.pending ≡ some (p, rest)
    → IsRunning settings (record s { pending = rest })
pick-IsRunning settings i s h e =
    let l = length-pick i s.pending e in
    let counted = h.counted in
    let limited = h.limited in
    record {
      counted = omega (arith, l, counted);
      limited = omega (arith, l, limited);
      asked = h.asked;
    }

pub on_event-IsCounted :
    (settings : AbuseSettings) (e : Event) (s : SocketState)
    → IsCounted settings s
    → IsCounted settings (on_event settings e s)
unfolding on_event
on_event-IsCounted settings (requested r) s h = run_socket_operation-IsCounted settings r s h
on_event-IsCounted settings unknown s h =
    let asked = h.asked in record { counted = h.counted; limited = h.limited; asked = ground arith }
on_event-IsCounted settings malformed s h =
    let asked = h.asked in record { counted = h.counted; limited = h.limited; asked = ground arith }
on_event-IsCounted settings (answered i a) s h = elim (Option-cases (pick i s.pending)) [
  | inl e ↦ rw (e, on_event) h
  | inr ((p, rest), e) ↦
      let s' : SocketState = record s { pending = rest } in
      let h' = pick-IsRunning settings i s h e in
      rw (e, on_event) (resume-IsCounted settings p a s' h')
]
on_event-IsCounted settings disconnected s h = record {
  counted = h.counted;
  limited = h.limited;
  asked = h.asked;
}

-- After any events, on a socket for which this holds at first, the counter is the number of its operations in flight, which stays
-- within the limit, and the controls have asked for its disconnection exactly if it sent a malformed
-- event and their number has met the limit.
pub on_events-IsCounted :
    (settings : AbuseSettings) (es : List Event) (s : SocketState)
    → IsCounted settings s
    → IsCounted settings (on_events settings es s)
unfolding on_events
on_events-IsCounted settings [] s h = h
on_events-IsCounted settings (e ∷ es) s h =
    on_events-IsCounted settings es (on_event settings e s) (on_event-IsCounted settings e s h)

-- ===== src/Irc/Session.antt =====
-- A session with an IRC server (services/external-irc/session.ts). Each method returns the session,
-- what it wrote and told in order, and the error it throws, if any. The handler of events neither
-- throws nor calls the session again.
pub mod Cutting
pub mod Bytes
pub mod Reads
pub mod Stream
pub mod Written
pub mod Safety
pub mod Ping
use arctic_rss.Prelude.{
  ℕ, zero, suc, ◌+◌, Bool, true, false, Option, none, some, List, [], ◌∷◌, ◌++◌, ◌&&◌, ◌||◌, not,
  if◌then◌else◌, leb, ltb, ◌==◌, all, any, length, Text, codes, text_eq, is_upper, is_lower,
  is_digit, trim, byte_length,
}
use arctic_rss.Irc.Protocol.{
  Message, ProtocolError, Checked, valid, refused, cr, lf, is_empty, parse_irc_line,
  encode_irc_command,
}

abbrev pub max_buffer_bytes : ℕ
max_buffer_bytes = 8192

pub data SessionError : Type 0 where
  protocol : ProtocolError → SessionError
  session_closed invalid_channel invalid_nickname invalid_username invalid_message : SessionError

-- The reason of a `protocol-error` event.
pub data Reason : Type 0 where
  buffer_exceeded : Reason
  thrown : SessionError → Reason

-- A line written, an event told, or the transport closed.
pub data Output : Type 0 where
  write : Text → Output
  connected transport_close closed : Output
  message : Message → Output
  protocol_error : Reason → Output

pub record Session : Type 0 where
  pub buffer : Text
  pub is_closed : Bool

abbrev pub new_session : Session
new_session = record { buffer = []; is_closed = false }

-- What some statements put out, and the error that ends them.
pub record Run : Type 0 where
  pub outputs : List Output
  pub error : Option SessionError

abbrev pub puts : List Output → Run
puts outputs = record { outputs = outputs; error = none }

abbrev pub fails : SessionError → Run
fails e = record { outputs = []; error = some e }

-- The second statement runs unless the first one throws.
unfoldable pub and_then : Run → Run → Run
and_then first second = elim first.error [
  | none ↦ record { outputs = first.outputs ++ second.outputs; error = second.error }
  | some e ↦ first
]

-- What is thrown becomes an event.
unfoldable pub caught : Run → List Output
caught run = elim run.error [
  | none ↦ run.outputs
  | some e ↦ run.outputs ++ protocol_error (thrown e) ∷ []
]

-- The text, trimmed, if it passes the test.
unfoldable normalized : SessionError → (Text → Bool) → Text → (Text → Run) → Run
normalized e test value next = let s = trim value in if test s then next s else fails e

abbrev is_letter : ℕ → Bool
is_letter c = is_upper c || is_lower c

abbrev is_name_char : ℕ → Bool
is_name_char c = is_letter c || (is_digit c || (c == b'_' || c == b'-'))

-- `/^#[A-Za-z0-9][A-Za-z0-9_\-]{0,63}$/`
unfoldable is_channel : Text → Bool
is_channel [] = false
is_channel (c ∷ []) = false
is_channel (c ∷ d ∷ s) =
    c == b'#' && ((is_letter d || is_digit d) && (all is_name_char s && leb (length s) 63))

-- `/^[A-Za-z][A-Za-z0-9_\-]{least,most}$/`
unfoldable is_name : ℕ → ℕ → Text → Bool
is_name least most [] = false
is_name least most (c ∷ s) =
    is_letter c && (all is_name_char s && (leb least (length s) && leb (length s) most))

abbrev is_control : ℕ → Bool
is_control c = leb c 31 || c == 127

unfoldable is_message_body : Text → Bool
is_message_body s = not (is_empty s) && (leb (length s) 400 && not (any is_control s))

-- The text before and after the first line end.
unfoldable pub cut_crlf : Text → Option (Text × Text)
cut_crlf [] = none
cut_crlf (c ∷ []) = none
cut_crlf (c ∷ d ∷ s) = elim (cut_crlf (d ∷ s)) [
  | none ↦ if c == cr && d == lf then some ([], s) else none
  | some (line, rest) ↦ if c == cr && d == lf then some ([], s) else some (c ∷ line, rest)
]

-- `message.trailing ?? message.params[0]`
abbrev ping_token : Message → Option Text
ping_token m = elim m.trailing [
  | some t ↦ some t
  | none ↦ elim m.params [ [] ↦ none | p ∷ ps ↦ some p ]
]

unfoldable pub close : Session → Session × List Output
close s =
    if s.is_closed then (s, []) else (record s { is_closed = true }, transport_close ∷ closed ∷ [])

module _ (to_upper_case : Text → Text) where
  unfoldable pub send : Bool → Text → List Text → Option Text → Run
  send is_closed command params trailing =
      if is_closed
      then fails session_closed
      else elim (encode_irc_command to_upper_case command params trailing) [
        | refused e ↦ fails (protocol e)
        | valid line ↦ puts (write line ∷ [])
      ]

  -- The body of the loop over the lines.
  unfoldable pub receive_line : Bool → Text → List Output
  unfolding send and_then caught
  receive_line is_closed line = elim (parse_irc_line to_upper_case line) [
    | refused e ↦ protocol_error (thrown (protocol e)) ∷ []
    | valid m ↦
        let answer = send is_closed (codes "PONG") [] (ping_token m) in
        caught (
          if text_eq m.command (codes "PING")
          then and_then answer (puts (message m ∷ []))
          else puts (message m ∷ []))
  ]

  -- The loop over the lines of the buffer: what it puts out, and the buffer it leaves. Every round
  -- removes two characters at least, so that the length of the buffer is fuel enough.
  unfoldable pub receive_lines : ℕ → Bool → Text → List Output × Text
  receive_lines zero is_closed buffer = ([], buffer)
  receive_lines (suc fuel) is_closed buffer = elim (cut_crlf buffer) [
    | none ↦ ([], buffer)
    | some (line, rest) ↦
        let (outputs, left) = receive_lines fuel is_closed rest in
        (receive_line is_closed line ++ outputs, left)
  ]

  unfoldable pub receive : Session → Text → Session × List Output
  receive s chunk =
      let buffer = s.buffer ++ chunk in
      let (outputs, left) = receive_lines (length buffer) s.is_closed buffer in
      if s.is_closed
      then (s, [])
      else if ltb max_buffer_bytes (byte_length buffer)
      then (record s { buffer = [] }, protocol_error buffer_exceeded ∷ [])
      else (record s { buffer = left }, outputs)

  unfoldable pub join : Session → Text → Run
  unfolding is_channel normalized
  join s channel =
      normalized invalid_channel is_channel channel
        (λ c. send s.is_closed (codes "JOIN") (c ∷ []) none)

  unfoldable pub send_channel_message : Session → Text → Text → Run
  unfolding is_channel is_message_body normalized
  send_channel_message s channel body = normalized invalid_channel is_channel channel (λ c.
      normalized invalid_message is_message_body body
        (λ b. send s.is_closed (codes "PRIVMSG") (c ∷ []) (some b)))

  unfoldable pub start : Text → Text → Session → Run
  unfolding is_name normalized and_then
  start nickname username s =
      let cap = send s.is_closed (codes "CAP") (codes "LS" ∷ codes "302" ∷ []) none in
      let nick =
        normalized invalid_nickname (is_name 2 23) nickname
          (λ n. send s.is_closed (codes "NICK") (n ∷ []) none) in
      let user = normalized invalid_username (is_name 0 15) username (λ u.
        send s.is_closed (codes "USER") (u ∷ codes "0" ∷ codes "*" ∷ [])
          (some (codes "ArcticIRC"))) in
      and_then cap (and_then nick (and_then user (puts (connected ∷ []))))

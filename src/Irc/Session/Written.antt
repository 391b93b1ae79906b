-- ===== src/Irc/Session/Written.antt =====
-- Every method of a session writes whole lines.
use arctic_rss.Prelude.{
  ℕ, zero, suc, ◌≡◌, refl, inl, inr, Bool, true, false, Option, none, some, List, [], ◌∷◌, ◌++◌,
  if◌then◌else◌, branch, Text, codes, text_eq, trim, All, Option-cases,
}
use arctic_rss.Irc.Protocol.{Checked, valid, refused, Message, parse_irc_line, encode_irc_command}
use arctic_rss.Irc.Protocol.Lines.{IsLine, encode-IsLine}
use arctic_rss.Irc.Session.{
  Session, Output, Run, write, connected, transport_close, closed, message, protocol_error, puts,
  and_then, ping_token, SessionError, send, receive_line, receive_lines, join, send_channel_message,
  start, cut_crlf, is_channel, is_message_body, is_name, normalized, fails, protocol, thrown,
  caught, invalid_channel, invalid_nickname, invalid_username, invalid_message,
}

abbrev pub IsWritten : Output → Type 0
IsWritten (write line) = IsLine line
IsWritten connected = Unit
IsWritten transport_close = Unit
IsWritten closed = Unit
IsWritten (message m) = Unit
IsWritten (protocol_error r) = Unit

pub All-append {ℓ κ} :
    {A : Type ℓ} (P : A → Type κ) (x y : List A) → All P x → All P y → All P (x ++ y)
All-append P [] y h k = k
All-append P (a ∷ x) y (h, hs) k = (h, All-append P x y hs k)

-- What is written is lines.
pub record AllLines (run : Run) : Type 0 where
  pub lines : All IsWritten run.outputs

and_then-IsWritten :
    (first second : Run) → AllLines first → AllLines second → AllLines (and_then first second)
unfolding and_then
and_then-IsWritten first second h k = elim (Option-cases first.error) [
  | inl e ↦ record {
    lines = rw e (All-append IsWritten first.outputs second.outputs h.lines k.lines);
  }
  | inr (x, e) ↦ record { lines = rw e h.lines }
]

normalized-IsWritten :
    (e : SessionError) (test : Text → Bool) (value : Text) (next : Text → Run)
    → ((s : Text) → AllLines (next s))
    → AllLines (normalized e test value next)
unfolding normalized
normalized-IsWritten e test value next h =
    branch AllLines (test (trim value)) (λ _. h (trim value)) (λ _. record { lines = tt })

caught-IsWritten : (run : Run) → AllLines run → All IsWritten (caught run)
unfolding caught
caught-IsWritten run h = elim (Option-cases run.error) [
  | inl e ↦ rw e h.lines
  | inr (x, e) ↦ rw e (All-append IsWritten run.outputs _ h.lines (tt, tt))
]

module _ (to_upper_case : Text → Text) where
  encoded-IsWritten :
      (line : Checked Text)
      → ((l : Text) → line ≡ valid l → IsLine l)
      → AllLines (elim line as (λ x. Run) [
        | refused e ↦ fails (protocol e)
        | valid l ↦ puts (write l ∷ [])
      ])
  encoded-IsWritten (valid l) h = record { lines = (h l refl, tt) }
  encoded-IsWritten (refused e) h = record { lines = tt }

  send-IsWritten :
      (is_closed : Bool) (command : Text) (params : List Text) (trailing : Option Text)
      → AllLines (send to_upper_case is_closed command params trailing)
  unfolding send
  send-IsWritten true command params trailing = record { lines = tt }
  send-IsWritten false command params trailing =
      encoded-IsWritten (encode_irc_command to_upper_case command params trailing)
        (λ l h. encode-IsLine to_upper_case command params trailing l h)

  pub join-IsWritten : (s : Session) (channel : Text) → AllLines (join to_upper_case s channel)
  unfolding join
  join-IsWritten s channel =
      normalized-IsWritten invalid_channel is_channel channel _
        (λ c. send-IsWritten s.is_closed (codes "JOIN") (c ∷ []) none)

  pub send_channel_message-IsWritten :
      (s : Session) (channel body : Text)
      → AllLines (send_channel_message to_upper_case s channel body)
  unfolding send_channel_message
  send_channel_message-IsWritten s channel body =
      normalized-IsWritten invalid_channel is_channel channel _ (λ c.
        normalized-IsWritten invalid_message is_message_body body _
          (λ b. send-IsWritten s.is_closed (codes "PRIVMSG") (c ∷ []) (some b)))

  pub start-IsWritten :
      (nickname username : Text) (s : Session) → AllLines (start to_upper_case nickname username s)
  unfolding start
  start-IsWritten nickname username s =
      let cap = send-IsWritten s.is_closed (codes "CAP") (codes "LS" ∷ codes "302" ∷ []) none in
      let nick =
        normalized-IsWritten invalid_nickname (is_name 2 23) nickname _
          (λ n. send-IsWritten s.is_closed (codes "NICK") (n ∷ []) none) in
      let user = normalized-IsWritten invalid_username (is_name 0 15) username _ (λ u.
        send-IsWritten s.is_closed (codes "USER") (u ∷ codes "0" ∷ codes "*" ∷ [])
          (some (codes "ArcticIRC"))) in
      let told : AllLines (puts (connected ∷ [])) = record { lines = (tt, tt) } in
      and_then-IsWritten _ _ cap (and_then-IsWritten _ _ nick (and_then-IsWritten _ _ user told))

  answered-IsWritten :
      (is_closed is_ping : Bool) (m : Message)
      → AllLines (
          if is_ping
          then and_then
              (send to_upper_case is_closed (codes "PONG") [] (ping_token m))
              (puts (message m ∷ []))
          else puts (message m ∷ []))
  answered-IsWritten is_closed true m =
      and_then-IsWritten _ _ (send-IsWritten is_closed (codes "PONG") [] (ping_token m))
        (record { lines = (tt, tt) })
  answered-IsWritten is_closed false m = record { lines = (tt, tt) }

  receive_line-IsWritten :
      (is_closed : Bool) (line : Text) → All IsWritten (receive_line to_upper_case is_closed line)
  unfolding receive_line
  receive_line-IsWritten is_closed line = go (parse_irc_line to_upper_case line)
    where
      go :
          (parsed : Checked Message)
          → All IsWritten (elim parsed as (λ x. List Output) [
            | refused e ↦ protocol_error (thrown (protocol e)) ∷ []
            | valid m ↦ caught (
                if text_eq m.command (codes "PING")
                then and_then
                    (send to_upper_case is_closed (codes "PONG") [] (ping_token m))
                    (puts (message m ∷ []))
                else puts (message m ∷ []))
          ])
      go (refused e) = (tt, tt)
      go (valid m) =
          caught-IsWritten _ (answered-IsWritten is_closed (text_eq m.command (codes "PING")) m)

  pub receive_lines-IsWritten :
      (n : ℕ) (is_closed : Bool) (x : Text)
      → All IsWritten (receive_lines to_upper_case n is_closed x).0
  unfolding receive_lines
  receive_lines-IsWritten zero is_closed x = tt
  receive_lines-IsWritten (suc n) is_closed x = elim (Option-cases (cut_crlf x)) [
    | inl e ↦ rw (receive_lines, e) tt
    | inr ((line, rest), e) ↦
        let later = receive_lines-IsWritten n is_closed rest in
        rw (receive_lines, e)
          (All-append IsWritten (receive_line to_upper_case is_closed line) _
            (receive_line-IsWritten is_closed line) later)
  ]

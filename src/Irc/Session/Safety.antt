-- ===== src/Irc/Session/Safety.antt =====
-- What a session writes, and that closing it ends it.
use arctic_rss.Prelude.{
  ◌≡◌, refl, ap, Bool, true, Option, none, some, List, [], ◌∷◌, ◌++◌, branch, ltb, length, Text,
  codes, byte_length, trim, All,
}
use arctic_rss.Irc.Session.{
  Session, Output, Run, and_then, SessionError, send, receive, close, join, send_channel_message,
  start, max_buffer_bytes, is_channel, is_message_body, normalized, invalid_channel,
  invalid_message,
}
use arctic_rss.Irc.Session.Written.{
  All-append, IsWritten, join-IsWritten, receive_lines-IsWritten, send_channel_message-IsWritten,
  start-IsWritten,
}

-- The calls of a session's methods, and the end of the connection.
pub data Call : Type 0 where
  start_call : Text → Text → Call
  join_call receive_call : Text → Call
  message_call : Text → Text → Call
  close_call : Call

-- Nothing is put out.
record Silent (run : Run) : Type 0 where
  pub silent : run.outputs ≡ []

normalized-Silent :
    (e : SessionError) (test : Text → Bool) (value : Text) (next : Text → Run)
    → ((s : Text) → Silent (next s))
    → Silent (normalized e test value next)
unfolding normalized
normalized-Silent e test value next h =
    branch Silent (test (trim value)) (λ _. h (trim value)) (λ _. record { silent = refl })

close-IsClosed : (s : Session) → (close s).0.is_closed ≡ true
unfolding close
close-IsClosed s =
    branch (λ (r : Session × List Output). r.0.is_closed ≡ true) s.is_closed (λ h. h) (λ _. refl)

append_nothing : (o : List Output) → o ++ [] ≡ o
append_nothing [] = refl
append_nothing (x ∷ o) = ap (λ p. x ∷ p) (append_nothing o)

module _ (to_upper_case : Text → Text) where
  -- One call. The errors of the calls that throw go to the caller.
  unfoldable pub call : Session → Call → Session × List Output
  call s (start_call nickname username) = (s, (start to_upper_case nickname username s).outputs)
  call s (join_call channel) = (s, (join to_upper_case s channel).outputs)
  call s (message_call channel body) =
      (s, (send_channel_message to_upper_case s channel body).outputs)
  call s (receive_call chunk) = receive to_upper_case s chunk
  call s close_call = close s

  unfoldable pub calls : Session → List Call → Session × List Output
  unfolding call
  calls s [] = (s, [])
  calls s (c ∷ cs) =
      let (after, first) = call s c in let (end, rest) = calls after cs in (end, first ++ rest)

  call-IsWritten : (s : Session) (c : Call) → All IsWritten (call s c).1
  unfolding call receive close
  call-IsWritten s (start_call nickname username) =
      (start-IsWritten to_upper_case nickname username s).lines
  call-IsWritten s (join_call channel) = (join-IsWritten to_upper_case s channel).lines
  call-IsWritten s (message_call channel body) =
      (send_channel_message-IsWritten to_upper_case s channel body).lines
  call-IsWritten s (receive_call chunk) =
      let buffer = s.buffer ++ chunk in
      branch (λ (r : Session × List Output). All IsWritten r.1) s.is_closed (λ _. tt)
        (λ _.
          branch (λ (r : Session × List Output). All IsWritten r.1)
            (ltb max_buffer_bytes (byte_length buffer)) (λ _. (tt, tt))
            (λ _. receive_lines-IsWritten to_upper_case (length buffer) s.is_closed buffer))
  call-IsWritten s close_call =
      branch (λ (r : Session × List Output). All IsWritten r.1) s.is_closed (λ _. tt)
        (λ _. (tt, (tt, tt)))

  -- Whatever a session is called to do and whatever the server sends, each text that it writes is one
  -- line: text without a carriage return or a line feed, then the line end, in at most 512 bytes.
  pub calls-IsWritten : (cs : List Call) (s : Session) → All IsWritten (calls s cs).1
  unfolding calls
  calls-IsWritten [] s = tt
  calls-IsWritten (c ∷ cs) s =
      All-append IsWritten (call s c).1 _ (call-IsWritten s c) (calls-IsWritten cs (call s c).0)

  send-closed :
      (is_closed : Bool) (command : Text) (params : List Text) (trailing : Option Text)
      → is_closed ≡ true
      → Silent (send to_upper_case is_closed command params trailing)
  unfolding send
  send-closed is_closed command params trailing h = record { silent = rw h refl }

  join-closed :
      (s : Session) (channel : Text) → s.is_closed ≡ true → Silent (join to_upper_case s channel)
  unfolding join
  join-closed s channel h =
      normalized-Silent invalid_channel is_channel channel _
        (λ c. send-closed s.is_closed (codes "JOIN") (c ∷ []) none h)

  send_channel_message-closed :
      (s : Session) (channel body : Text)
      → s.is_closed ≡ true
      → Silent (send_channel_message to_upper_case s channel body)
  unfolding send_channel_message
  send_channel_message-closed s channel body h =
      normalized-Silent invalid_channel is_channel channel _ (λ c.
        normalized-Silent invalid_message is_message_body body _
          (λ b. send-closed s.is_closed (codes "PRIVMSG") (c ∷ []) (some b) h))

  call-closed : (s : Session) (c : Call) → s.is_closed ≡ true → call s c ≡ (s, [])
  unfolding call receive close start and_then send
  call-closed s (start_call nickname username) h = rw h refl
  call-closed s (join_call channel) h = ap (λ o. (s, o)) (join-closed s channel h).silent
  call-closed s (message_call channel body) h =
      ap (λ o. (s, o)) (send_channel_message-closed s channel body h).silent
  call-closed s (receive_call chunk) h = rw h refl
  call-closed s close_call h = rw h refl

  calls-closed : (cs : List Call) (s : Session) → s.is_closed ≡ true → calls s cs ≡ (s, [])
  unfolding calls
  calls-closed [] s h = refl
  calls-closed (c ∷ cs) s h = rw (call-closed s c h, calls-closed cs s h) refl

  -- Closing a session ends it: whatever calls follow, and whatever the server sends then, the session
  -- stays as the closing leaves it and puts out only what the closing puts out.
  pub calls-close : (s : Session) (cs : List Call) → calls s (close_call ∷ cs) ≡ close s
  unfolding calls call
  calls-close s cs =
      rw (calls-closed cs (close s).0 (close-IsClosed s), append_nothing (close s).1) refl

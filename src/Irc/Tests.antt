-- ===== src/Irc/Tests.antt =====
-- Lines of a conversation.
use arctic_rss.Prelude.{
  ◌-◌, ◌≤◌, ◌≡◌, refl, true, false, none, some, List, [], ◌∷◌, ◌++◌, map, if◌then◌else◌, all, Text,
  codes, is_lower, arith, All, byte_length, trim_start, is_space,
}
use arctic_rss.Irc.Protocol.{
  valid, refused, invalid_parameter, Message, is_command_char, crlf, parse_irc_line,
  encode_irc_command, read_params, first_word, cut_at, is_command, is_named_command, is_middle,
}
use arctic_rss.Irc.Protocol.Roundtrip.{parse-encode}
use arctic_rss.Irc.Session.{Session, write, message, new_session, receive, close}
use arctic_rss.Irc.Session.Stream.{receive_all, receive_all-concat}
use arctic_rss.Irc.Session.Written.{IsWritten}
use arctic_rss.Irc.Session.Safety.{
  Call, calls, start_call, join_call, receive_call, message_call, close_call, calls-IsWritten,
  calls-close,
}
use arctic_rss.Irc.Session.Ping.{receive-ping}

-- `toUpperCase` on ASCII.
abbrev upper : Text → Text
upper s = map (λ c. if is_lower c then c - 32 else c) s

upper_kept : (s : Text) → all is_command_char s ≡ true → upper s ≡ s
upper_kept [] h = refl
upper_kept (c ∷ s) h = ground (arith, h, upper_kept s)

abbrev spoken : Text
spoken = codes "PRIVMSG #arctic :hello there" ++ crlf

abbrev ping : Message
ping = record { command = codes "PING"; params = []; prefix = none; trailing = some (codes "tmi") }

abbrev half_read : Session
half_read = record { buffer = codes "PI"; is_closed = false }

abbrev evening : List Call
evening =
    start_call (codes "arctic") (codes "arctic")
    ∷ join_call (codes "#arctic")
    ∷ receive_call (codes "PING :tmi" ++ crlf)
    ∷ message_call (codes "#arctic") (codes "hello")
    ∷ close_call
    ∷ []

pinged : parse_irc_line upper (codes "PING :tmi") ≡ valid ping
unfolding parse_irc_line is_command byte_length first_word cut_at read_params trim_start is_space
pinged = refl

-- IRC allows a colon inside a parameter.
colon_refused :
    parse_irc_line upper (codes ":irc.example 378 ann host 2001:db8::1") ≡ refused invalid_parameter
unfolding parse_irc_line is_command byte_length cut_at first_word read_params trim_start is_space
    is_middle
colon_refused = refl

encoded :
    encode_irc_command upper (codes "privmsg") (codes "#arctic" ∷ []) (some (codes "hello there"))
    ≡ valid spoken
unfolding encode_irc_command is_named_command is_middle byte_length is_space
encoded = refl

fits : byte_length (codes "PING :tmi" ++ crlf) ≤ 8192
unfolding byte_length
fits = omega arith

short : byte_length (codes "tmi") ≤ 504
unfolding byte_length
short = omega arith

parse-encode_example :
    (body : Text) × (spoken ≡ body ++ crlf)
    × (parse_irc_line upper body
        ≡ valid (record {
          command = codes "PRIVMSG";
          params = codes "#arctic" ∷ [];
          prefix = none;
          trailing = some (codes "hello there");
        }))
parse-encode_example =
    parse-encode upper upper_kept (codes "privmsg") (codes "#arctic" ∷ [])
      (some (codes "hello there")) spoken encoded

receive_all-concat_example :
    receive_all upper half_read (codes "N" ∷ codes "G :t" ∷ (codes "mi" ++ crlf) ∷ [])
    ≡ receive upper half_read (codes "NG :tmi" ++ crlf)
receive_all-concat_example =
    receive_all-concat upper half_read (codes "N") (codes "G :t" ∷ (codes "mi" ++ crlf) ∷ []) refl
      fits

calls-IsWritten_example : All IsWritten (calls upper new_session evening).1
calls-IsWritten_example = calls-IsWritten upper evening new_session

calls-close_example : calls upper half_read (close_call ∷ evening) ≡ close half_read
calls-close_example = calls-close upper half_read evening

receive-ping_example : receive upper half_read (codes "NG :tmi" ++ crlf) ≡ (
  record { buffer = []; is_closed = false },
  write (codes "PONG :tmi" ++ crlf) ∷ message ping ∷ [],
)
receive-ping_example =
    receive-ping upper half_read (codes "NG :tmi" ++ crlf) (codes "PING :tmi") ping (codes "tmi")
      refl refl refl pinged refl refl short

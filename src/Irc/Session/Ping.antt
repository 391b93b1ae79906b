-- ===== src/Irc/Session/Ping.antt =====
-- A PING is answered.
use arctic_rss.Prelude.{
  ℕ, zero, suc, ◌+◌, ◌≤◌, ◌≡◌, refl, ap, ◌∙◌, ◌⊎◌, inl, inr, true, false, Option, none, some, List,
  [], ◌∷◌, ◌++◌, ltb, all, any, ◌==◌, length, Text, codes, text_eq, text_eq_refl, byte_length,
  trim_start, arith, Bool-cases, Option-cases,
}
use arctic_rss.Irc.Protocol.{
  ProtocolError, Checked, valid, refused, Message, is_line_end, is_middle, is_named_command,
  has_line_end, crlf, cut_at, first_word, read_prefix, read_params, read_command, parse_irc_line,
  encode_irc_command, join_words, max_irc_line_bytes,
}
use arctic_rss.Irc.Protocol.Words.{byte_length-crlf}
use arctic_rss.Irc.Protocol.Lines.{middle-one_line}
use arctic_rss.Irc.Session.{
  Session, write, message, and_then, caught, ping_token, send, receive_line, receive, cut_crlf,
  max_buffer_bytes,
}
use arctic_rss.Irc.Session.Reads.{stops, line_then, cut_crlf-nil}
use arctic_rss.Irc.Session.Stream.{receive-Reads, append_empty}
use arctic_rss.Irc.Session.Cutting.{cut_crlf-line}

cut_at-one_line :
    (mark : ℕ) (s word rest : Text)
    → cut_at mark s ≡ some (word, rest)
    → any is_line_end s ≡ false
    → any is_line_end rest ≡ false
unfolding cut_at
cut_at-one_line mark [] word rest e h = cc
cut_at-one_line mark (c ∷ s) word rest e h = elim (Option-cases (cut_at mark s)) [
  | inl n ↦ ground (arith, e, h, n)
  | inr ((w, r), n) ↦ ground (arith, e, h, n, cut_at-one_line mark s w r n)
]

trim_start-one_line :
    (s : Text) → any is_line_end s ≡ false → any is_line_end (trim_start s) ≡ false
unfolding trim_start
trim_start-one_line [] h = refl
trim_start-one_line (c ∷ s) h = ground (arith, h, trim_start-one_line s)

first_word-one_line :
    (s : Text) → any is_line_end s ≡ false → any is_line_end (first_word s).1 ≡ false
unfolding first_word
first_word-one_line s h = elim (Option-cases (cut_at b' ' s)) [
  | inl n ↦ rw (first_word, n) refl
  | inr ((w, r), n) ↦ rw (first_word, n) (cut_at-one_line b' ' s w r n h)
]

Checked-cases {ℓ} :
    {A : Type ℓ} (c : Checked A)
    → ((e : ProtocolError) × (c ≡ refused e)) ⊎ ((a : A) × (c ≡ valid a))
Checked-cases (valid a) = inr (a, refl)
Checked-cases (refused e) = inl (e, refl)

read_prefix-one_line :
    (line : Text) (prefix : Option Text) (s : Text)
    → read_prefix line ≡ valid (prefix, s)
    → any is_line_end line ≡ false
    → any is_line_end s ≡ false
unfolding read_prefix
read_prefix-one_line [] prefix s e h = cc
read_prefix-one_line (c ∷ line) prefix s e h = elim (Option-cases (cut_at b' ' line)) [
  | inl n ↦ ground (arith, e, h, n)
  | inr (([], r), n) ↦ ground (arith, e, h, n)
  | inr ((d ∷ w, r), n) ↦ ground (arith, e, h, n, cut_at-one_line b' ' line (d ∷ w) r n)
]

-- The parameters and the trailing text of a line have no line ends.
record Clean (params : List Text) (trailing : Option Text) : Type 0 where
  pub middles : all is_middle params ≡ true
  pub one_line : has_line_end trailing ≡ false

read_params-Clean :
    (n : ℕ) (s : Text) (params : List Text) (trailing : Option Text)
    → read_params n s ≡ valid (params, trailing)
    → any is_line_end s ≡ false
    → Clean params trailing
unfolding read_params
read_params-Clean zero s params trailing e h = record { middles = cc; one_line = cc }
read_params-Clean (suc n) [] params trailing e h = record { middles = cc; one_line = cc }
read_params-Clean (suc n) (c ∷ s) params trailing e h = elim (Bool-cases (c == b':')) [
  | inl colon ↦ record {
    middles = ground (arith, e, colon);
    one_line = ground (arith, e, colon, h);
  }
  | inr other ↦
      let rest = trim_start (first_word (c ∷ s)).1 in
      let clean = trim_start-one_line (first_word (c ∷ s)).1 (first_word-one_line (c ∷ s) h) in
      elim (Checked-cases (read_params n rest)) [
        | inl (x, l) ↦ absurd (ground (arith, e, other, l))
        | inr ((ps, t), l) ↦
            let later = read_params-Clean n rest ps t l clean in
            record {
              middles = ground (arith, e, other, l, later.middles);
              one_line = ground (arith, e, other, l, later.one_line);
            }
      ]
]

token-one_line :
    (params : List Text) (trailing : Option Text) (t : Text)
    → Clean params trailing
    → elim trailing as (λ x. Option Text) [
      | some u ↦ some u
      | none ↦ elim params as (λ x. Option Text) [ [] ↦ none | p ∷ ps ↦ some p ]
    ]
      ≡ some t
    → any is_line_end t ≡ false
unfolding is_middle
token-one_line params (some u) t clean h = ground (arith, h, clean.one_line)
token-one_line [] none t clean h = cc
token-one_line (p ∷ ps) none t clean h =
    let first = middle-one_line p (ground (arith, clean.middles)) in ground (arith, h, first)

byte_length-ascii : (c : ℕ) (s : Text) → c ≤ 127 → byte_length (c ∷ s) ≡ suc (byte_length s)
unfolding byte_length
byte_length-ascii c [] h = ground (arith, h)
byte_length-ascii c (d ∷ s) h = ground (arith, h)

byte_length-pong : (t : Text) → byte_length (codes "PONG :" ++ t) ≡ 6 + byte_length t
byte_length-pong t =
    rw
      (
        byte_length-ascii b'P' (codes "ONG :" ++ t) (omega arith),
        byte_length-ascii b'O' (codes "NG :" ++ t) (omega arith),
        byte_length-ascii b'N' (codes "G :" ++ t) (omega arith),
        byte_length-ascii b'G' (codes " :" ++ t) (omega arith),
        byte_length-ascii b' ' (codes ":" ++ t) (omega arith),
        byte_length-ascii b':' t (omega arith),
      )
      (omega arith)

-- What a line that is parsed is known to be.
record Bounds (line : Text) : Type 0 where
  pub one_line : any is_line_end line ≡ false
  pub short : byte_length line ≤ 510

module _ (to_upper_case : Text → Text) where
  read_command-Clean :
      (prefix : Option Text) (s : Text) (m : Message)
      → read_command to_upper_case prefix s ≡ valid m
      → any is_line_end s ≡ false
      → Clean m.params m.trailing
  unfolding read_command
  read_command-Clean prefix s m e h =
      let cursor = trim_start (first_word s).1 in
      let clean = trim_start-one_line (first_word s).1 (first_word-one_line s h) in
      elim (Checked-cases (read_params (length cursor) cursor)) [
        | inl (x, l) ↦ absurd (ground (arith, e, l))
        | inr ((ps, t), l) ↦
            let made = read_params-Clean (length cursor) cursor ps t l clean in
            record {
              middles = ground (arith, e, l, made.middles);
              one_line = ground (arith, e, l, made.one_line);
            }
      ]

  parse-Clean :
      (line : Text) (m : Message)
      → parse_irc_line to_upper_case line ≡ valid m
      → Clean m.params m.trailing
  unfolding parse_irc_line
  parse-Clean line m e =
      let clean : any is_line_end line ≡ false = ground (arith, e) in
      elim (Checked-cases (read_prefix line)) [
        | inl (x, l) ↦ absurd (ground (arith, e, l))
        | inr ((prefix, s), l) ↦
            let read : read_command to_upper_case prefix s ≡ valid m = ground (arith, e, l) in
            read_command-Clean prefix s m read (read_prefix-one_line line prefix s l clean)
      ]

  parse-Bounds :
      (line : Text) (m : Message) → parse_irc_line to_upper_case line ≡ valid m → Bounds line
  unfolding parse_irc_line
  parse-Bounds line m e = record { one_line = ground (arith, e); short = ground (arith, e) }

  encode-pong :
      (t : Text)
      → to_upper_case (codes "PONG") ≡ codes "PONG"
      → any is_line_end t ≡ false
      → byte_length t ≤ 504
      → encode_irc_command to_upper_case (codes "PONG") [] (some t)
        ≡ valid ((codes "PONG :" ++ t) ++ crlf)
  unfolding encode_irc_command join_words is_named_command
  encode-pong t upper h l =
      let bytes = byte_length-crlf (codes "PONG :" ++ t) in
      let short : ltb max_irc_line_bytes (byte_length ((codes "PONG :" ++ t) ++ crlf)) ≡ false =
        ground (arith, bytes, byte_length-pong t, l) in
      rw (encode_irc_command, upper, h, short) refl

  receive_line-ping :
      (line : Text) (m : Message) (t : Text)
      → to_upper_case (codes "PONG") ≡ codes "PONG"
      → parse_irc_line to_upper_case line ≡ valid m
      → m.command ≡ codes "PING"
      → ping_token m ≡ some t
      → byte_length t ≤ 504
      → receive_line to_upper_case false line
        ≡ write ((codes "PONG :" ++ t) ++ crlf) ∷ message m ∷ []
  unfolding receive_line send and_then caught
  receive_line-ping line m t upper parsed ping token l =
      let one_line = token-one_line m.params m.trailing t (parse-Clean line m parsed) token in
      let pong = encode-pong t upper one_line l in
      let is_ping : text_eq m.command (codes "PING") ≡ true =
        rw ping (text_eq_refl (codes "PING")) in
      rw (receive_line, parsed, is_ping, token, pong) refl

  -- If a session is open and what has come is a whole line which parses as a PING, with a token of at
  -- most 504 bytes, then it writes the PONG with that token and tells the message, and its buffer is
  -- empty, provided that `toUpperCase` leaves the word PONG.
  pub receive-ping :
      (s : Session) (chunk line : Text) (m : Message) (t : Text)
      → to_upper_case (codes "PONG") ≡ codes "PONG"
      → s.is_closed ≡ false
      → s.buffer ++ chunk ≡ line ++ crlf
      → parse_irc_line to_upper_case line ≡ valid m
      → m.command ≡ codes "PING"
      → ping_token m ≡ some t
      → byte_length t ≤ 504
      → receive to_upper_case s chunk
        ≡ (record s { buffer = [] }, write ((codes "PONG :" ++ t) ++ crlf) ∷ message m ∷ [])
  receive-ping s chunk line m t upper open_session come parsed ping token l =
      let answer = receive_line-ping line m t upper parsed ping token l in
      let bounds = parse-Bounds line m parsed in
      let short : byte_length (s.buffer ++ chunk) ≤ max_buffer_bytes =
        rw (come, byte_length-crlf line) (omega (arith, bounds.short)) in
      let cut : cut_crlf (s.buffer ++ chunk) ≡ some (line, []) =
        rw (come, ← append_empty (line ++ crlf)) (cut_crlf-line line [] bounds.one_line) in
      let read = line_then {o = []} cut (stops cut_crlf-nil) in
      let same = append_empty (receive_line to_upper_case false line) ∙ answer in
      receive-Reads to_upper_case s chunk [] (receive_line to_upper_case false line ++ [])
        open_session short read
      ∙ ap (λ o. (record s { buffer = [] }, o)) same

-- ===== src/Irc/Protocol/Lines.antt =====
-- What encodes a command is one line.
use arctic_rss.Prelude.{
  ◌≤◌, ◌≡◌, refl, ap, ◌∙◌, true, false, Option, none, some, List, [], ◌∷◌, ◌++◌, all, any, Text,
  is_space, byte_length, arith,
}
use arctic_rss.Irc.Protocol.{
  valid, is_middle_char, is_middle, is_command_char, is_named_command, is_line_end, has_line_end,
  crlf, join_words, trailing_words, encode_irc_command, max_irc_line_bytes,
}
use arctic_rss.Irc.Protocol.Words.{spaced, tail, join_words-tail, any-append}

command-one_line : (s : Text) → all is_command_char s ≡ true → any is_line_end s ≡ false
command-one_line [] h = refl
command-one_line (c ∷ s) h = ground (arith, command-one_line s)

pub named-chars : (s : Text) → is_named_command s ≡ true → all is_command_char s ≡ true
unfolding is_named_command
named-chars [] h = refl
named-chars (c ∷ s) h = ground arith

pub middle-one_line : (s : Text) → all is_middle_char s ≡ true → any is_line_end s ≡ false
unfolding is_space
middle-one_line [] h = refl
middle-one_line (c ∷ s) h = ground (arith, middle-one_line s)

spaced-one_line : (s : Text) → any is_line_end s ≡ false → any is_line_end (spaced s) ≡ false
spaced-one_line [] h = refl
spaced-one_line (c ∷ s) h = ground (arith, h)

tail-one_line :
    (params : List Text) (trailing : Option Text)
    → all is_middle params ≡ true
    → has_line_end trailing ≡ false
    → any is_line_end (tail params trailing) ≡ false
unfolding is_middle
tail-one_line [] none h k = refl
tail-one_line [] (some t) h k = ground (arith, k)
tail-one_line (p ∷ ps) t h k =
    let first = middle-one_line p (ground (arith, h)) in
    let rest = spaced-one_line (tail ps t) (tail-one_line ps t (ground (arith, h)) k) in
    rw (any-append is_line_end p (spaced (tail ps t)), first) rest

-- One line: a text without line ends, and then the line end, within the limit of bytes.
pub record IsLine (line : Text) : Type 0 where
  pub body : Text
  pub ended : line ≡ body ++ crlf
  pub one_line : any is_line_end body ≡ false
  pub short : byte_length line ≤ max_irc_line_bytes

module _ (to_upper_case : Text → Text) where
  -- What a command must be to be encoded, and the text without its end.
  pub record Encoded (command : Text) (params : List Text) (trailing : Option Text) (line : Text)
      : Type 0 where
    pub named : is_named_command (to_upper_case command) ≡ true
    pub middles : all is_middle params ≡ true
    pub one_line : has_line_end trailing ≡ false
    pub short : byte_length line ≤ max_irc_line_bytes
    pub whole : line ≡ (to_upper_case command ++ spaced (tail params trailing)) ++ crlf

  pub encode-Encoded :
      (command : Text) (params : List Text) (trailing : Option Text) (line : Text)
      → encode_irc_command to_upper_case command params trailing ≡ valid line
      → Encoded command params trailing line
  unfolding encode_irc_command
  encode-Encoded command params trailing line h =
      let middles : all is_middle params ≡ true = ground (arith, h) in
      let joined = join_words-tail (to_upper_case command) params trailing middles in
      let words = join_words (to_upper_case command) (params ++ trailing_words trailing) in
      let made : line ≡ words ++ crlf = ground (arith, h) in
      record {
        named = ground (arith, h);
        middles = middles;
        one_line = ground (arith, h);
        short = rw made (ground (arith, h));
        whole = made ∙ ap (λ w. w ++ crlf) joined;
      }

  pub body-one_line :
      (command : Text) (params : List Text) (trailing : Option Text) (line : Text)
      → Encoded command params trailing line
      → any is_line_end (to_upper_case command ++ spaced (tail params trailing)) ≡ false
  body-one_line command params trailing line e =
      let name = to_upper_case command in
      let first = command-one_line name (named-chars name e.named) in
      let rest =
        spaced-one_line (tail params trailing)
          (tail-one_line params trailing e.middles e.one_line) in
      rw (any-append is_line_end name (spaced (tail params trailing)), first) rest

  -- What the encoder returns is one line: text without a carriage return or a line feed, then the
  -- line end, in at most 512 bytes.
  pub encode-IsLine :
      (command : Text) (params : List Text) (trailing : Option Text) (line : Text)
      → encode_irc_command to_upper_case command params trailing ≡ valid line
      → IsLine line
  encode-IsLine command params trailing line h =
      let e = encode-Encoded command params trailing line h in
      record {
        body = to_upper_case command ++ spaced (tail params trailing);
        ended = e.whole;
        one_line = body-one_line command params trailing line e;
        short = e.short;
      }

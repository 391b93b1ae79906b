-- ===== src/Irc/Protocol/Roundtrip.antt =====
-- What is encoded is read back.
use arctic_rss.Prelude.{
  ◌≡◌, refl, ap, true, false, Option, none, List, [], ◌∷◌, ◌++◌, ltb, all, length, Text,
  byte_length, arith,
}
use arctic_rss.Irc.Protocol.{
  valid, is_middle, is_empty, is_command, is_command_char, is_named_command, crlf, read_prefix,
  first_word, read_command, parse_irc_line, encode_irc_command,
}
use arctic_rss.Irc.Protocol.Words.{
  spaced, tail, first_word-spaced, command-has_no_space, byte_length-crlf,
}
use arctic_rss.Irc.Protocol.Reading.{read_params-tail, trim_start-tail}
use arctic_rss.Irc.Protocol.Lines.{encode-Encoded, named-chars, body-one_line}

read_prefix-command :
    (s u : Text) → is_named_command s ≡ true → read_prefix (s ++ u) ≡ valid (none, s ++ u)
unfolding read_prefix is_named_command
read_prefix-command [] u h = cc
read_prefix-command (c ∷ s) u h = ground (arith, h)

named-nonempty : (s u : Text) → is_named_command s ≡ true → is_empty (s ++ u) ≡ false
unfolding is_named_command
named-nonempty [] u h = cc
named-nonempty (c ∷ s) u h = refl

named-command : (s : Text) → is_named_command s ≡ true → is_command s ≡ true
unfolding is_command
named-command s h = ground (arith, h)

module _ (to_upper_case : Text → Text)
    (upper_kept : (s : Text) → all is_command_char s ≡ true → to_upper_case s ≡ s) where
  read_command-tail :
      (s : Text) (params : List Text) (trailing : Option Text)
      → is_named_command s ≡ true
      → all is_middle params ≡ true
      → read_command to_upper_case none (s ++ spaced (tail params trailing))
        ≡ valid (record { command = s; params = params; prefix = none; trailing = trailing })
  unfolding read_command
  read_command-tail s params trailing named middles =
      let chars = named-chars s named in
      let word = first_word-spaced s (tail params trailing) (command-has_no_space s chars) in
      let kept = upper_kept s chars in
      let whole = trim_start-tail params trailing middles in
      let read =
        read_params-tail (length (tail params trailing)) params trailing middles (omega arith) in
      let command = named-command s named in
      let name : to_upper_case (first_word (s ++ spaced (tail params trailing))).0 ≡ s =
        rw word kept in
      rw (word, kept, whole, command, read)
        (ap
          (λ c. valid (record { command = c; params = params; prefix = none; trailing = trailing }))
          name)

  -- If `toUpperCase` leaves upper-case letters and digits, then a line that is encoded is read back,
  -- without its end, as the command in upper case, with the same parameters and trailing text.
  pub parse-encode :
      (command : Text) (params : List Text) (trailing : Option Text) (line : Text)
      → encode_irc_command to_upper_case command params trailing ≡ valid line
      → (body : Text) × (line ≡ body ++ crlf)
        × (parse_irc_line to_upper_case body
            ≡ valid (record {
              command = to_upper_case command;
              params = params;
              prefix = none;
              trailing = trailing;
            }))
  unfolding parse_irc_line
  parse-encode command params trailing line h =
      let e = encode-Encoded to_upper_case command params trailing line h in
      let one_line = body-one_line to_upper_case command params trailing line e in
      let name = to_upper_case command in
      let body = name ++ spaced (tail params trailing) in
      let middle = read_prefix-command name (spaced (tail params trailing)) e.named in
      let read = read_command-tail name params trailing e.named e.middles in
      let nonempty = named-nonempty name (spaced (tail params trailing)) e.named in
      let short : ltb 510 (byte_length body) ≡ false =
        ground (arith, e.short, e.whole, byte_length-crlf body) in
      (body, e.whole, rw (nonempty, one_line, short, middle) read)

-- ===== src/Irc/Protocol.antt =====
-- The lines of the IRC protocol (services/external-irc/protocol.ts). A function that throws returns
-- the error. `toUpperCase` and `toLowerCase` are arguments.
pub mod Words
pub mod Reading
pub mod Roundtrip
pub mod Lines
use arctic_rss.Prelude.{
  ℕ, zero, suc, ◌+◌, ◌-◌, Bool, true, false, Option, none, some, List, [], ◌∷◌, ◌++◌, ◌&&◌, ◌||◌,
  not, if◌then◌else◌, leb, ltb, ◌==◌, all, any, length, Text, codes, text_eq, is_upper, is_digit,
  is_lower, is_space, trim_start, byte_length,
}

abbrev pub max_irc_line_bytes : ℕ
max_irc_line_bytes = 512

pub record Message : Type 0 where
  pub command : Text
  pub params : List Text
  pub prefix : Option Text
  pub trailing : Option Text

pub data ProtocolError : Type 0 where
  invalid_line invalid_prefix invalid_command invalid_parameter invalid_trailing : ProtocolError
  line_too_long : ProtocolError

-- What a function returns, or the error that it throws.
pub data Checked {ℓ} (A : Type ℓ) : Type ℓ where
  valid : A → Checked A
  refused : ProtocolError → Checked A

abbrev pub cr : ℕ
cr = 13

abbrev pub lf : ℕ
lf = 10

abbrev pub is_line_end : ℕ → Bool
is_line_end c = c == cr || c == lf

abbrev pub crlf : Text
crlf = cr ∷ lf ∷ []

abbrev pub is_empty : Text → Bool
is_empty [] = true
is_empty _ = false

abbrev pub is_command_char : ℕ → Bool
is_command_char c = is_upper c || is_digit c

-- `/^[A-Z][A-Z0-9]{0,15}$/`
unfoldable pub is_named_command : Text → Bool
is_named_command [] = false
is_named_command (c ∷ s) = is_upper c && (all is_command_char s && leb (length s) 15)

-- `/^(?:[A-Z][A-Z0-9]{0,15}|\d{3})$/`
unfoldable pub is_command : Text → Bool
unfolding is_named_command
is_command s = is_named_command s || (all is_digit s && length s == 3)

abbrev pub is_middle_char : ℕ → Bool
is_middle_char c = not (is_space c || c == b':')

-- `/^[^\s:\r\n]+$/`
unfoldable pub is_middle : Text → Bool
is_middle s = not (is_empty s) && all is_middle_char s

-- The text before and after the first occurrence of a character.
unfoldable pub cut_at : ℕ → Text → Option (Text × Text)
cut_at mark [] = none
cut_at mark (c ∷ s) = elim (cut_at mark s) [
  | none ↦ if c == mark then some ([], s) else none
  | some (before, after) ↦ if c == mark then some ([], s) else some (c ∷ before, after)
]

-- The text up to the first space, and what follows it, if anything.
unfoldable pub first_word : Text → Text × Text
first_word s = elim (cut_at b' ' s) [ none ↦ (s, []) | some (word, rest) ↦ (word, rest) ]

-- The prefix and the remaining text, where there is one.
unfoldable pub read_prefix : Text → Checked (Option Text × Text)
read_prefix [] = valid (none, [])
read_prefix (c ∷ s) = if not (c == b':') then valid (none, c ∷ s) else elim (cut_at b' ' s) [
  | none ↦ refused invalid_prefix
  | some ([], rest) ↦ refused invalid_prefix
  | some (d ∷ before, rest) ↦ valid (some (d ∷ before), rest)
]

-- The loop over the parameters. Every round takes at least one character, so that the length of the
-- text is fuel enough.
unfoldable pub read_params : ℕ → Text → Checked (List Text × Option Text)
read_params zero cursor = valid ([], none)
read_params (suc fuel) [] = valid ([], none)
read_params (suc fuel) (c ∷ s) =
    let (word, rest) = first_word (c ∷ s) in
    let later = read_params fuel (trim_start rest) in
    if c == b':'
    then valid ([], some s)
    else if not (is_middle word)
    then refused invalid_parameter
    else elim later [
      | refused e ↦ refused e
      | valid (params, trailing) ↦ valid (word ∷ params, trailing)
    ]

-- Words joined by single spaces.
unfoldable pub join_words : Text → List Text → Text
join_words first [] = first
join_words first (word ∷ words) = first ++ b' ' ∷ join_words word words

abbrev pub trailing_words : Option Text → List Text
trailing_words none = []
trailing_words (some t) = (b':' ∷ t) ∷ []

abbrev pub has_line_end : Option Text → Bool
has_line_end none = false
has_line_end (some t) = any is_line_end t

module _ (to_upper_case : Text → Text) where
  -- After the prefix: `split(" ")`, and `join(" ")` of all words but the first.
  unfoldable pub read_command : Option Text → Text → Checked Message
  read_command prefix remaining =
      let (token, rest) = first_word remaining in
      let command = to_upper_case token in
      let cursor = trim_start rest in
      if not (is_command command)
      then refused invalid_command
      else elim (read_params (length cursor) cursor) [
        | refused e ↦ refused e
        | valid (params, trailing) ↦
            valid
              (record { command = command; params = params; prefix = prefix; trailing = trailing })
      ]

  unfoldable pub parse_irc_line : Text → Checked Message
  unfolding read_command read_prefix
  parse_irc_line value =
      if is_empty value
        || (any is_line_end value || ltb (max_irc_line_bytes - 2) (byte_length value))
      then refused invalid_line
      else elim (read_prefix value) [
        | refused e ↦ refused e
        | valid (prefix, remaining) ↦ read_command prefix remaining
      ]

  unfoldable pub encode_irc_command : Text → List Text → Option Text → Checked Text
  unfolding join_words
  encode_irc_command command params trailing =
      let normalized = to_upper_case command in
      let line = join_words normalized (params ++ trailing_words trailing) in
      if not (is_named_command normalized)
      then refused invalid_command
      else if not (all is_middle params)
      then refused invalid_parameter
      else if has_line_end trailing
      then refused invalid_trailing
      else if ltb max_irc_line_bytes (byte_length (line ++ crlf))
      then refused line_too_long
      else valid (line ++ crlf)

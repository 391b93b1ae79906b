-- ===== src/Irc/Session/Stream.antt =====
-- How the stream is cut into chunks makes no difference.
use arctic_rss.Prelude.{
  ◌≤◌, ◌≡◌, refl, subst, ap, false, List, [], ◌∷◌, ◌++◌, ltb, length, Text, byte_length, arith,
}
use arctic_rss.Irc.Session.{Session, Output, receive, receive_lines, max_buffer_bytes}
use arctic_rss.Irc.Session.Bytes.{byte_length-left}
use arctic_rss.Irc.Session.Reads.{
  Reads, receive_lines-Reads, Reads-receive_lines, Reads-append, Reads-bytes, append_assoc,
}

abbrev concat : List Text → Text
concat [] = []
concat (chunk ∷ chunks) = chunk ++ concat chunks

pub append_empty {ℓ} : {A : Type ℓ} (s : List A) → s ++ [] ≡ s
append_empty [] = refl
append_empty (c ∷ s) = ap (λ t. c ∷ t) (append_empty s)

module _ (to_upper_case : Text → Text) where
  -- The chunks, one after the other.
  unfoldable pub receive_all : Session → List Text → Session × List Output
  receive_all s [] = (s, [])
  receive_all s (chunk ∷ chunks) =
      let (after, first) = receive to_upper_case s chunk in
      let (end, rest) = receive_all after chunks in (end, first ++ rest)

  -- In an open session within the limit, what is read of the buffer is what is received.
  pub receive-Reads :
      (s : Session) (chunk left : Text) (o : List Output)
      → s.is_closed ≡ false
      → byte_length (s.buffer ++ chunk) ≤ max_buffer_bytes
      → Reads to_upper_case (s.buffer ++ chunk) o left
      → receive to_upper_case s chunk ≡ (record s { buffer = left }, o)
  unfolding receive
  receive-Reads s chunk left o h l r =
      let whole =
        Reads-receive_lines to_upper_case (length (s.buffer ++ chunk)) (s.buffer ++ chunk) o left r
          (omega arith) in
      let fits : ltb max_buffer_bytes (byte_length (s.buffer ++ chunk)) ≡ false =
        ground (arith, l) in
      rw (h, fits, whole) refl

  -- What an open session within the limit reads of a chunk.
  record Received (s : Session) (chunk : Text) : Type 0 where
    pub left : Text
    pub outputs : List Output
    pub reads : Reads to_upper_case (s.buffer ++ chunk) outputs left

  received : (s : Session) (chunk : Text) → Received s chunk
  received s chunk =
      let x = s.buffer ++ chunk in
      record {
        left = (receive_lines to_upper_case (length x) false x).1;
        outputs = (receive_lines to_upper_case (length x) false x).0;
        reads = receive_lines-Reads to_upper_case (length x) x (omega arith);
      }

  -- A chunk in two parts.
  receive-append :
      (s : Session) (a b : Text)
      → s.is_closed ≡ false
      → byte_length (s.buffer ++ (a ++ b)) ≤ max_buffer_bytes
      → receive to_upper_case s (a ++ b) ≡ (
        (receive to_upper_case (receive to_upper_case s a).0 b).0,
        (receive to_upper_case s a).1 ++ (receive to_upper_case (receive to_upper_case s a).0 b).1,
      )
  receive-append s a b h l =
      let joined = append_assoc s.buffer a b in
      let short : byte_length ((s.buffer ++ a) ++ b) ≤ max_buffer_bytes = rw joined l in
      let r = received s a in
      let middle : Session = record s { buffer = r.left } in
      let first_fits : byte_length (s.buffer ++ a) ≤ max_buffer_bytes =
        omega (arith, short, byte_length-left (s.buffer ++ a) b) in
      let first = receive-Reads s a r.left r.outputs h first_fits r.reads in
      let t = received middle b in
      let bytes = Reads-bytes to_upper_case (s.buffer ++ a) b r.left r.outputs r.reads in
      let second_fits : byte_length (r.left ++ b) ≤ max_buffer_bytes =
        omega (arith, short, bytes) in
      let second = receive-Reads middle b t.left t.outputs h second_fits t.reads in
      let both =
        Reads-append to_upper_case (s.buffer ++ a) b r.left t.left r.outputs t.outputs r.reads
          t.reads in
      let read = subst (λ x. Reads to_upper_case x (r.outputs ++ t.outputs) t.left) joined both in
      rw (receive-Reads s (a ++ b) t.left (r.outputs ++ t.outputs) h l read, first, second) refl

  -- An open session to which chunks come one by one ends in the same state and puts out the same, in
  -- the same order, as when their concatenation comes at once, if there is a chunk and the buffer with
  -- all the chunks is within the limit.
  pub receive_all-concat :
      (s : Session) (chunk : Text) (chunks : List Text)
      → s.is_closed ≡ false
      → byte_length (s.buffer ++ concat (chunk ∷ chunks)) ≤ max_buffer_bytes
      → receive_all s (chunk ∷ chunks) ≡ receive to_upper_case s (concat (chunk ∷ chunks))
  unfolding receive_all
  receive_all-concat s chunk [] h l =
      rw (append_empty chunk, append_empty (receive to_upper_case s chunk).1) refl
  receive_all-concat s chunk (d ∷ ds) h l =
      let rest = concat (d ∷ ds) in
      let r = received s chunk in
      let middle : Session = record s { buffer = r.left } in
      let joined = append_assoc s.buffer chunk rest in
      let short : byte_length ((s.buffer ++ chunk) ++ rest) ≤ max_buffer_bytes = rw joined l in
      let fits : byte_length (s.buffer ++ chunk) ≤ max_buffer_bytes =
        omega (arith, short, byte_length-left (s.buffer ++ chunk) rest) in
      let first = receive-Reads s chunk r.left r.outputs h fits r.reads in
      let bytes = Reads-bytes to_upper_case (s.buffer ++ chunk) rest r.left r.outputs r.reads in
      let later = receive_all-concat middle d ds h (omega (arith, short, bytes)) in
      rw (receive-append s chunk rest h l, first, ← later) refl

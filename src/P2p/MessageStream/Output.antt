-- ===== src/P2p/MessageStream/Output.antt =====
-- What src/p2p/connection/message_stream.rs should make of the bytes of a socket, one byte after
-- another, and that it does, however the bytes arrive.
use mathlib.Core.List.{append_assoc, append-nil}
use risq.Base.{
  ℕ, zero, suc, ◌+◌, ◌-◌, ◌≡◌, ◌≤◌, ◌<◌, refl, sym, ap, ◌∙◌, true, false, ◌||◌, Option, none, some,
  List, [], ◌∷◌, ◌++◌, length, length-append, ltb, nat_beq, arith, Bool-cases, inl, inr,
  if◌then◌else◌,
}
use risq.P2p.MessageStream.{
  Envelope, without_message, single, bundle_of_envelopes, Envelopes, no_envelopes, more_envelopes,
  Reader, poll_read, StreamState, message_in_progress, between_messages, empty, MessageStream,
  Progress, waiting, ended, filled, after_byte, after_bytes, read_size, read_body, Codec,
}
use risq.P2p.MessageStream.Reads.{bytes_of, IsRead, poll_read-IsRead, poll_some}

module _ {M : Type 0} where
  abbrev mutual
    -- The messages of an envelope, and of the envelopes of a bundle, in their order.
    pub messages : Envelope M → List M
    messages without_message = []
    messages (single msg) = msg ∷ []
    messages (bundle_of_envelopes es) = messages_of es

    pub messages_of : Envelopes M → List M
    messages_of no_envelopes = []
    messages_of (more_envelopes e es) = messages e ++ messages_of es

  abbrev pub buffered : List (Envelope M) → List M
  buffered [] = []
  buffered (e ∷ es) = messages e ++ buffered es

module _ {M : Type 0} (codec : Codec M) where
  -- The state after the last byte of a size.
  abbrev pub sized : Option ℕ → StreamState
  sized none = empty
  sized (some size) = message_in_progress size []

  -- The state after a byte. The last byte of a size is below 128, or the tenth.
  abbrev pub push : StreamState → ℕ → StreamState
  push empty b = empty
  push (message_in_progress size buf) b = message_in_progress size (buf ++ (b ∷ []))
  push (between_messages buf) b =
      if ltb b 128 || nat_beq (length buf) 9
      then sized (codec.decode_varint (buf ++ (b ∷ [])))
      else between_messages (buf ++ (b ∷ []))

  abbrev pub finish : Option (Envelope M) → StreamState × List M
  finish none = (empty, [])
  finish (some envelope) = (between_messages [], messages envelope)

  -- A message is decoded where all its bytes are there.
  abbrev pub settle : StreamState → StreamState × List M
  settle (message_in_progress size buf) =
      if ltb (length buf) size
      then (message_in_progress size buf, [])
      else finish (codec.decode buf)
  settle state = (state, [])

  -- The messages of a state and the bytes behind it.
  unfoldable pub output : StreamState → List ℕ → List M
  output state [] = (settle state).1
  output state (b ∷ bs) = let (state', msgs) = settle state in msgs ++ output (push state' b) bs

  -- All that a stream will still give.
  abbrev pub remaining : MessageStream M → List M
  remaining s = buffered s.buffer ++ output s.state (bytes_of s.reader)

  pub output-empty : (bs : List ℕ) → output empty bs ≡ []
  unfolding output
  output-empty [] = refl
  output-empty (b ∷ bs) = output-empty bs

  -- What the loop over a size keeps of the output.
  abbrev pub IsSizeRead : List ℕ → List ℕ → Progress → Type 0
  IsSizeRead buf bytes (waiting buf' reader) =
      (length buf' < 10)
      × (output (between_messages buf') (bytes_of reader) ≡ output (between_messages buf) bytes)
  IsSizeRead buf bytes (ended buf' reader) = output (between_messages buf) bytes ≡ []
  IsSizeRead buf bytes (filled buf' reader) =
      output (sized (codec.decode_varint buf')) (bytes_of reader)
      ≡ output (between_messages buf) bytes

  IsSizeRead-step :
      (buf buf' bytes bytes' : List ℕ) (p : Progress)
      → output (between_messages buf') bytes' ≡ output (between_messages buf) bytes
      → IsSizeRead buf' bytes' p
      → IsSizeRead buf bytes p
  IsSizeRead-step buf buf' bytes bytes' (waiting i r) e (short, h) = (short, h ∙ e)
  IsSizeRead-step buf buf' bytes bytes' (ended i r) e h = sym e ∙ h
  IsSizeRead-step buf buf' bytes bytes' (filled i r) e h = h ∙ e

  -- The output from between two messages, over a byte.
  output-byte :
      (buf bytes bytes' : List ℕ) (b : ℕ)
      → b ∷ bytes' ≡ bytes
      → output (push (between_messages buf) b) bytes' ≡ output (between_messages buf) bytes
  unfolding output
  output-byte buf bytes bytes' b h = ap (output (between_messages buf)) h

  -- A round of the loop, where what is left of it keeps the output.
  after_byte-IsSizeRead :
      (buf bytes : List ℕ) (rest : List ℕ → Reader → Progress) (polled : Option (List ℕ) × Reader)
      → length buf < 10
      → ((b : ℕ) (r : Reader)
          → ltb b 128 ≡ false
          → b ∷ bytes_of r ≡ bytes
          → IsSizeRead buf bytes (rest (buf ++ (b ∷ [])) r))
      → IsRead 1 bytes polled
      → IsSizeRead buf bytes (after_byte rest buf polled)
  unfolding output
  after_byte-IsSizeRead buf bytes rest (none, r) short go h =
      (short, ap (output (between_messages buf)) h)
  after_byte-IsSizeRead buf bytes rest (some [], r) short go h =
      ap (output (between_messages buf)) h
  after_byte-IsSizeRead buf bytes rest (some (b ∷ (c ∷ bs)), r) short go h =
      absurd (omega (arith, h.1))
  after_byte-IsSizeRead buf bytes rest (some (b ∷ []), r) short go h =
      elim (Bool-cases (ltb b 128)) [
        | inl last ↦ rw last (rw last at (output-byte buf bytes (bytes_of r) b h.0))
        | inr more ↦ rw more (go b r more h.0)
      ]

  pub read_size-IsSizeRead :
      (left : ℕ) (buf : List ℕ) (reader : Reader)
      → length buf + suc left ≡ 10
      → IsSizeRead buf (bytes_of reader) (read_size (suc left) buf reader)
  unfolding read_size
  read_size-IsSizeRead zero buf reader e =
      after_byte-IsSizeRead buf (bytes_of reader) (read_size zero) (poll_read 1 reader)
        (omega (arith, e))
        (λ b r more h.
          let full : nat_beq (length buf) 9 ≡ true = ground (arith, e) in
          rw (more, full) at (output-byte buf (bytes_of reader) (bytes_of r) b h))
        (poll_read-IsRead 0 reader)
  read_size-IsSizeRead (suc left) buf reader e =
      after_byte-IsSizeRead buf (bytes_of reader) (read_size (suc left)) (poll_read 1 reader)
        (omega (arith, e))
        (λ b r more h.
          let part : nat_beq (length buf) 9 ≡ false = ground (arith, e) in
          IsSizeRead-step buf (buf ++ (b ∷ [])) (bytes_of reader) (bytes_of r)
            (read_size (suc left) (buf ++ (b ∷ [])) r)
            (rw (more, part) at (output-byte buf (bytes_of reader) (bytes_of r) b h))
            (read_size-IsSizeRead left (buf ++ (b ∷ [])) r
              (omega (arith, e, length-append buf (b ∷ [])))))
        (poll_read-IsRead 0 reader)

  -- The output from within a message, over bytes of it.
  pub output-append :
      (size : ℕ) (buf front rest : List ℕ)
      → length buf + length front ≤ size
      → output (message_in_progress size (buf ++ front)) rest
        ≡ output (message_in_progress size buf) (front ++ rest)
  unfolding output
  output-append size buf [] rest h =
      ap (λ i. output (message_in_progress size i) rest) (append-nil buf)
  output-append size buf (b ∷ front) rest h =
      let part : ltb (length buf) size ≡ true = ground (arith, h) in
      ap (λ i. output (message_in_progress size i) rest) (sym (append_assoc buf (b ∷ []) front))
      ∙ output-append size (buf ++ (b ∷ [])) front rest
          (omega (arith, h, length-append buf (b ∷ [])))
      ∙ rw part refl

  -- What the loop over a message keeps of the output.
  abbrev pub IsBodyRead : ℕ → List ℕ → List ℕ → Progress → Type 0
  IsBodyRead size buf bytes (waiting buf' reader) =
      output (message_in_progress size buf') (bytes_of reader)
      ≡ output (message_in_progress size buf) bytes
  IsBodyRead size buf bytes (ended buf' reader) = output (message_in_progress size buf) bytes ≡ []
  IsBodyRead size buf bytes (filled buf' reader) =
      (size ≤ length buf')
      × (output (message_in_progress size buf') (bytes_of reader)
          ≡ output (message_in_progress size buf) bytes)

  IsBodyRead-step :
      (size : ℕ) (buf buf' bytes bytes' : List ℕ) (p : Progress)
      → output (message_in_progress size buf') bytes' ≡ output (message_in_progress size buf) bytes
      → IsBodyRead size buf' bytes' p
      → IsBodyRead size buf bytes p
  IsBodyRead-step size buf buf' bytes bytes' (waiting i r) e h = h ∙ e
  IsBodyRead-step size buf buf' bytes bytes' (ended i r) e h = sym e ∙ h
  IsBodyRead-step size buf buf' bytes bytes' (filled i r) e (full, h) = (full, h ∙ e)

  -- A round of the loop, where what is left of it keeps the output.
  after_bytes-IsBodyRead :
      (size : ℕ) (buf bytes : List ℕ) (rest : List ℕ → Reader → Progress)
      (polled : Option (List ℕ) × Reader)
      → ltb (length buf) size ≡ true
      → ((b : ℕ) (bs : List ℕ) (r : Reader)
          → IsBodyRead size (buf ++ (b ∷ bs)) (bytes_of r) (rest (buf ++ (b ∷ bs)) r))
      → IsRead (size - length buf) bytes polled
      → IsBodyRead size buf bytes (after_bytes rest buf polled)
  unfolding output
  after_bytes-IsBodyRead size buf bytes rest (none, r) part go e =
      ap (output (message_in_progress size buf)) e
  after_bytes-IsBodyRead size buf bytes rest (some [], r) part go e =
      ap (output (message_in_progress size buf)) e ∙ rw (part, output) refl
  after_bytes-IsBodyRead size buf bytes rest (some (b ∷ bs), r) part go (e, short) =
      IsBodyRead-step size buf (buf ++ (b ∷ bs)) bytes (bytes_of r) (rest (buf ++ (b ∷ bs)) r)
        (output-append size buf (b ∷ bs) (bytes_of r) (ground (arith, part, short))
          ∙ ap (output (message_in_progress size buf)) e)
        (go b bs r)

  pub read_body-IsBodyRead :
      (fuel size : ℕ) (buf : List ℕ) (reader : Reader)
      → size ≤ length buf + fuel
      → IsBodyRead size buf (bytes_of reader) (read_body fuel size buf reader)
  unfolding read_body
  read_body-IsBodyRead zero size buf reader h = (omega (arith, h), refl)
  read_body-IsBodyRead (suc fuel) size buf reader h = elim (Bool-cases (ltb (length buf) size)) [
    | inr full ↦ rw full (ground (arith, full), refl)
    | inl part ↦ rw part (
        after_bytes-IsBodyRead size buf (bytes_of reader) (read_body fuel size)
          (poll_read (size - length buf) reader) part
          (λ b bs r.
            read_body-IsBodyRead fuel size (buf ++ (b ∷ bs)) r
              (omega (arith, h, length-append buf (b ∷ bs))))
          (poll_some (size - length buf) reader (ground (arith, part))))
  ]

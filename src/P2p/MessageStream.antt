-- ===== src/P2p/MessageStream.antt =====
-- src/p2p/connection/message_stream.rs: messages from the bytes of a socket. The reader is what the
-- socket will give: chunks of bytes as they arrive, and the moments where nothing is there yet.
-- `decode_varint` and the decoding of an envelope (the crate prost) are parameters.
pub mod Reads
pub mod Output
pub mod Buffer
pub mod Polls
pub mod Ends
mod Tests
use risq.Base.{
  ℕ, zero, suc, ◌+◌, ◌-◌, Option, none, some, List, [], ◌∷◌, ◌++◌, length, ltb, if◌then◌else◌,
}

-- An envelope without a message, one with a message, and a bundle of envelopes.
mutual
  pub data Envelope (M : Type 0) : Type 0 where
    without_message : Envelope M
    single : M → Envelope M
    bundle_of_envelopes : Envelopes M → Envelope M

  pub data Envelopes (M : Type 0) : Type 0 where
    no_envelopes : Envelopes M
    more_envelopes : Envelope M → Envelopes M → Envelopes M

pub data Chunk : Type 0 where
  not_ready : Chunk
  arrived : ℕ → List ℕ → Chunk

abbrev pub Reader : Type 0
Reader = List Chunk

-- `poll_read` into `k` bytes: `none` is `NotReady`; no bytes for `k` above 0 is the end of the
-- stream.
abbrev pub rest_of : List ℕ → Reader → Reader
rest_of [] reader = reader
rest_of (b ∷ bs) reader = arrived b bs ∷ reader

abbrev pub split_at : ℕ → List ℕ → List ℕ × List ℕ
split_at zero bs = ([], bs)
split_at (suc k) [] = ([], [])
split_at (suc k) (b ∷ bs) = let (front, back) = split_at k bs in (b ∷ front, back)

unfoldable pub poll_read : ℕ → Reader → Option (List ℕ) × Reader
poll_read k [] = (some [], [])
poll_read k (not_ready ∷ reader) = (none, reader)
poll_read k (arrived b bs ∷ reader) =
    let (front, back) = split_at k (b ∷ bs) in (some front, rest_of back reader)

-- `MessageStreamState`; the bytes that are read so far stand for the buffer and `pos`.
pub data StreamState : Type 0 where
  message_in_progress : ℕ → List ℕ → StreamState
  between_messages : List ℕ → StreamState
  empty : StreamState

pub record MessageStream (M : Type 0) : Type 0 where
  pub reader : Reader
  pub state : StreamState
  pub buffer : List (Envelope M)

-- `MessageStream::new`
abbrev pub new_stream : {M : Type 0} → Reader → MessageStream M
new_stream reader = record { reader = reader; state = between_messages []; buffer = [] }

-- What a loop of reads comes to: `NotReady`, the end of the stream, or all bytes that are wanted.
pub data Progress : Type 0 where
  waiting ended filled : List ℕ → Reader → Progress

-- A round of the loop over the bytes of a size, with the rest of the loop.
abbrev pub after_byte : (List ℕ → Reader → Progress) → List ℕ → Option (List ℕ) × Reader → Progress
after_byte rest buf (none, reader) = waiting buf reader
after_byte rest buf (some [], reader) = ended buf reader
after_byte rest buf (some (b ∷ _), reader) =
    if ltb b 128 then filled (buf ++ (b ∷ [])) reader else rest (buf ++ (b ∷ [])) reader

-- The loop over the bytes of a size, `left` of the ten of its buffer.
unfoldable pub read_size : ℕ → List ℕ → Reader → Progress
read_size zero buf reader = filled buf reader
read_size (suc left) buf reader = after_byte (read_size left) buf (poll_read 1 reader)

-- A round of the loop over the bytes of a message.
abbrev pub after_bytes : (List ℕ → Reader → Progress) → List ℕ → Option (List ℕ) × Reader → Progress
after_bytes rest buf (none, reader) = waiting buf reader
after_bytes rest buf (some [], reader) = ended buf reader
after_bytes rest buf (some (b ∷ bs), reader) = rest (buf ++ (b ∷ bs)) reader

-- The loop over the bytes of a message. Each round reads a byte at least, so the number of bytes
-- that are wanted is fuel enough.
unfoldable pub read_body : ℕ → ℕ → List ℕ → Reader → Progress
read_body zero size buf reader = filled buf reader
read_body (suc fuel) size buf reader =
    if ltb (length buf) size
    then after_bytes (read_body fuel size) buf (poll_read (size - length buf) reader)
    else filled buf reader

-- `Ready(Some(…))`, `NotReady`, an error, and the panic of a stream that has finished.
pub data Polled (M : Type 0) : Type 0 where
  ready : M → Polled M
  pending failed panicked : Polled M

module _ {M : Type 0} where
  -- The loop over the envelopes of a bundle, from the last on, which puts them at the front.
  abbrev pub push_front : Envelopes M → List (Envelope M) → List (Envelope M)
  push_front no_envelopes buffer = buffer
  push_front (more_envelopes e es) buffer = e ∷ push_front es buffer

  -- The number of envelopes, those in bundles included.
  abbrev mutual
    pub size_envelope : Envelope M → ℕ
    size_envelope without_message = 1
    size_envelope (single msg) = 1
    size_envelope (bundle_of_envelopes es) = 1 + size_envelopes es

    pub size_envelopes : Envelopes M → ℕ
    size_envelopes no_envelopes = 0
    size_envelopes (more_envelopes e es) = size_envelope e + size_envelopes es

  abbrev pub size_buffer : List (Envelope M) → ℕ
  size_buffer [] = 0
  size_buffer (e ∷ es) = size_envelope e + size_buffer es

  -- `next_from_buffer`, with the number of envelopes as fuel: each round takes one away.
  unfoldable pub next_from_buffer : ℕ → List (Envelope M) → Option M × List (Envelope M)
  next_from_buffer zero buffer = (none, buffer)
  next_from_buffer (suc fuel) [] = (none, [])
  next_from_buffer (suc fuel) (without_message ∷ buffer) = next_from_buffer fuel buffer
  next_from_buffer (suc fuel) (single msg ∷ buffer) = (some msg, buffer)
  next_from_buffer (suc fuel) (bundle_of_envelopes es ∷ buffer) =
      next_from_buffer fuel (push_front es buffer)

-- What prost decodes: `decode_varint` of the bytes of a size, and `NetworkEnvelope::decode`.
pub record Codec (M : Type 0) : Type 0 where
  pub decode_varint : List ℕ → Option ℕ
  pub decode : List ℕ → Option (Envelope M)

-- A result with the stream after it; `none` is a lack of fuel.
abbrev pub Poll : Type 0 → Type 0
Poll M = Option (Polled M × MessageStream M)

module _ {M : Type 0} (codec : Codec M) (again : MessageStream M → Poll M) where
  -- The state with the bytes that are read, and the reader behind them.
  abbrev pub moved : MessageStream M → Reader → StreamState → MessageStream M
  moved s reader state = record s { reader = reader; state = state }

  abbrev pub after_varint : MessageStream M → List ℕ → Reader → Option ℕ → Poll M
  after_varint s buf reader none = some (failed, moved s reader (between_messages buf))
  after_varint s buf reader (some size) = again (moved s reader (message_in_progress size []))

  abbrev pub after_size : MessageStream M → Progress → Poll M
  after_size s (waiting buf reader) = some (pending, moved s reader (between_messages buf))
  after_size s (ended buf reader) = some (failed, moved s reader empty)
  after_size s (filled buf reader) = after_varint s buf reader (codec.decode_varint buf)

  abbrev pub after_decode : MessageStream M → Reader → Option (Envelope M) → Poll M
  after_decode s reader none = some (failed, moved s reader empty)
  after_decode s reader (some envelope) = again (record s {
    reader = reader;
    state = between_messages [];
    buffer = s.buffer ++ (envelope ∷ []);
  })

  abbrev pub after_body : MessageStream M → ℕ → Progress → Poll M
  after_body s size (waiting buf reader) =
      some (pending, moved s reader (message_in_progress size buf))
  after_body s size (ended buf reader) =
      some (failed, moved s reader (message_in_progress size buf))
  after_body s size (filled buf reader) = after_decode s reader (codec.decode buf)

  abbrev pub poll_state : MessageStream M → StreamState → Poll M
  poll_state s empty = some (panicked, s)
  poll_state s (between_messages buf) = after_size s (read_size (10 - length buf) buf s.reader)
  poll_state s (message_in_progress size buf) =
      after_body s size (read_body (size - length buf) size buf s.reader)

  abbrev pub after_buffer : MessageStream M → Option M × List (Envelope M) → Poll M
  after_buffer s (some msg, buffer) = some (ready msg, record s { buffer = buffer })
  after_buffer s (none, buffer) = poll_state (record s { buffer = buffer }) s.state

-- `Stream::poll`
unfoldable pub poll : {M : Type 0} → Codec M → ℕ → MessageStream M → Poll M
poll codec zero s = none
poll codec (suc fuel) s =
    after_buffer codec (poll codec fuel) s (next_from_buffer (size_buffer s.buffer) s.buffer)

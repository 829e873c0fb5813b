-- ===== src/P2p/MessageStream/Ends.antt =====
-- A poll in src/p2p/connection/message_stream.rs ends.
use risq.Base.{
  ℕ, zero, suc, ◌+◌, ◌-◌, ◌*◌, ◌≡◌, ◌≤◌, ◌<◌, refl, ap, true, Option, none, some, is_some, List, [],
  ◌∷◌, ◌++◌, length, length-append, ltb, arith, Bool-cases, inl, inr,
}
use risq.P2p.MessageStream.{
  Envelope, Reader, StreamState, message_in_progress, between_messages, empty, MessageStream,
  Progress, waiting, ended, filled, after_byte, after_bytes, poll_read, read_size, read_body,
  size_buffer, next_from_buffer, Codec, Poll, moved, after_varint, after_size, after_decode,
  after_body, poll_state, after_buffer, poll,
}
use risq.P2p.MessageStream.Reads.{bytes_of, IsRead, poll_read-IsRead, poll_some}
use risq.P2p.MessageStream.Polls.{IsOpen}

-- The bytes that are left when a loop has all that it wants are fewer than `k`.
abbrev IsBelow : ℕ → Progress → Type 0
IsBelow k (waiting buf reader) = Unit
IsBelow k (ended buf reader) = Unit
IsBelow k (filled buf reader) = length (bytes_of reader) < k

IsBelow-mono : (j k : ℕ) (p : Progress) → j ≤ k → IsBelow j p → IsBelow k p
IsBelow-mono j k (waiting buf reader) h b = tt
IsBelow-mono j k (ended buf reader) h b = tt
IsBelow-mono j k (filled buf reader) h b = omega (arith, h, b)

read-length :
    (k : ℕ) (bytes : List ℕ) (b : ℕ) (bs : List ℕ) (r : Reader)
    → IsRead k bytes (some (b ∷ bs), r)
    → length (bytes_of r) < length bytes
read-length k bytes b bs r (e, short) = omega (arith, ap length e, length-append bs (bytes_of r))

after_byte-IsBelow :
    (bytes buf : List ℕ) (rest : List ℕ → Reader → Progress) (polled : Option (List ℕ) × Reader)
    → ((i : List ℕ) (r : Reader)
        → length (bytes_of r) < length bytes
        → IsBelow (length bytes) (rest i r))
    → IsRead 1 bytes polled
    → IsBelow (length bytes) (after_byte rest buf polled)
after_byte-IsBelow bytes buf rest (none, r) go h = tt
after_byte-IsBelow bytes buf rest (some [], r) go h = tt
after_byte-IsBelow bytes buf rest (some (b ∷ bs), r) go h =
    let fewer = read-length 1 bytes b bs r h in
    elim (Bool-cases (ltb b 128)) [
      | inl last ↦ rw last fewer
      | inr more ↦ rw more (go (buf ++ (b ∷ [])) r fewer)
    ]

read_size-IsBelow :
    (left : ℕ) (buf : List ℕ) (reader : Reader)
    → IsBelow (length (bytes_of reader)) (read_size (suc left) buf reader)
unfolding read_size
read_size-IsBelow zero buf reader =
    after_byte-IsBelow (bytes_of reader) buf (read_size zero) (poll_read 1 reader)
      (λ i r fewer. fewer) (poll_read-IsRead 0 reader)
read_size-IsBelow (suc left) buf reader =
    after_byte-IsBelow (bytes_of reader) buf (read_size (suc left)) (poll_read 1 reader)
      (λ i r fewer.
        IsBelow-mono (length (bytes_of r)) (length (bytes_of reader)) (read_size (suc left) i r)
          (omega (arith, fewer)) (read_size-IsBelow left i r))
      (poll_read-IsRead 0 reader)

after_bytes-IsBelow :
    (k : ℕ) (bytes buf : List ℕ) (rest : List ℕ → Reader → Progress)
    (polled : Option (List ℕ) × Reader)
    → ((i : List ℕ) (r : Reader) → IsBelow (suc (length (bytes_of r))) (rest i r))
    → IsRead k bytes polled
    → IsBelow (suc (length bytes)) (after_bytes rest buf polled)
after_bytes-IsBelow k bytes buf rest (none, r) go h = tt
after_bytes-IsBelow k bytes buf rest (some [], r) go h = tt
after_bytes-IsBelow k bytes buf rest (some (b ∷ bs), r) go h =
    IsBelow-mono (suc (length (bytes_of r))) (suc (length bytes)) (rest (buf ++ (b ∷ bs)) r)
      (omega (arith, read-length k bytes b bs r h)) (go (buf ++ (b ∷ bs)) r)

read_body-IsBelow :
    (fuel size : ℕ) (buf : List ℕ) (reader : Reader)
    → IsBelow (suc (length (bytes_of reader))) (read_body fuel size buf reader)
unfolding read_body
read_body-IsBelow zero size buf reader = omega arith
read_body-IsBelow (suc fuel) size buf reader = elim (Bool-cases (ltb (length buf) size)) [
  | inr full ↦ rw full (omega arith)
  | inl part ↦ rw part (
      after_bytes-IsBelow (size - length buf) (bytes_of reader) buf (read_body fuel size)
        (poll_read (size - length buf) reader) (λ i r. read_body-IsBelow fuel size i r)
        (poll_some (size - length buf) reader (ground (arith, part))))
]

-- The rounds that a poll may take: two for each byte that is left.
abbrev pub rounds : StreamState → List ℕ → ℕ
rounds empty bytes = 1
rounds (between_messages buf) bytes = 2 * length bytes + 1
rounds (message_in_progress size buf) bytes = 2 * length bytes + 2

module _ {M : Type 0} (codec : Codec M) where
  abbrev IsEnding : ℕ → (MessageStream M → Poll M) → Type 0
  IsEnding fuel again =
      (s : MessageStream M)
      → IsOpen s.state
      → rounds s.state (bytes_of s.reader) ≤ fuel
      → is_some (again s) ≡ true

  module _ (fuel : ℕ) (again : MessageStream M → Poll M) (is_ending : IsEnding fuel again)
      (s : MessageStream M) where
    after_size-ends :
        (p : Progress)
        → IsBelow (length (bytes_of s.reader)) p
        → 2 * length (bytes_of s.reader) + 1 ≤ suc fuel
        → is_some (after_size codec again s p) ≡ true
    after_size-ends (waiting buf reader) b h = refl
    after_size-ends (ended buf reader) b h = refl
    after_size-ends (filled buf reader) b h = go (codec.decode_varint buf)
      where
        go : (size : Option ℕ) → is_some (after_varint codec again s buf reader size) ≡ true
        go none = refl
        go (some size) =
            is_ending (moved codec again s reader (message_in_progress size [])) tt
              (omega (arith, b, h))

    after_body-ends :
        (size : ℕ) (p : Progress)
        → IsBelow (suc (length (bytes_of s.reader))) p
        → 2 * length (bytes_of s.reader) + 2 ≤ suc fuel
        → is_some (after_body codec again s size p) ≡ true
    after_body-ends size (waiting buf reader) b h = refl
    after_body-ends size (ended buf reader) b h = refl
    after_body-ends size (filled buf reader) b h = go (codec.decode buf)
      where
        go :
            (envelope : Option (Envelope M))
            → is_some (after_decode codec again s reader envelope) ≡ true
        go none = refl
        go (some envelope) =
            is_ending
              (record s {
                reader = reader;
                state = between_messages [];
                buffer = s.buffer ++ (envelope ∷ []);
              })
              (omega arith) (omega (arith, b, h))

    size-IsBelow :
        (k : ℕ) (buf : List ℕ)
        → 1 ≤ k
        → IsBelow (length (bytes_of s.reader)) (read_size k buf s.reader)
    size-IsBelow zero buf h = absurd (omega (arith, h))
    size-IsBelow (suc left) buf h = read_size-IsBelow left buf s.reader

    poll_state-ends :
        (i : StreamState)
        → IsOpen i
        → rounds i (bytes_of s.reader) ≤ suc fuel
        → is_some (poll_state codec again s i) ≡ true
    poll_state-ends empty short h = refl
    poll_state-ends (between_messages buf) short h =
        after_size-ends (read_size (10 - length buf) buf s.reader)
          (size-IsBelow (10 - length buf) buf (omega (arith, short))) h
    poll_state-ends (message_in_progress size buf) short h =
        after_body-ends size (read_body (size - length buf) size buf s.reader)
          (read_body-IsBelow (size - length buf) size buf s.reader) h

  -- From a state where fewer than ten bytes of a size are read, two rounds for each byte that the
  -- socket will give are fuel enough for a poll, with two more within a message, one more between
  -- messages or at the end.
  pub poll_ends :
      (fuel : ℕ) (s : MessageStream M)
      → IsOpen s.state
      → rounds s.state (bytes_of s.reader) ≤ fuel
      → is_some (poll codec fuel s) ≡ true
  unfolding poll
  poll_ends zero s short h = absurd (no_rounds s.state (bytes_of s.reader) h)
    where
      no_rounds : (i : StreamState) (bytes : List ℕ) → rounds i bytes ≤ 0 → ⊥
      no_rounds empty bytes h = omega (arith, h)
      no_rounds (between_messages buf) bytes h = omega (arith, h)
      no_rounds (message_in_progress size buf) bytes h = omega (arith, h)
  poll_ends (suc fuel) s short h =
      buffer (poll_ends fuel) (next_from_buffer (size_buffer s.buffer) s.buffer)
    where
      buffer :
          IsEnding fuel (poll codec fuel)
          → (next : Option M × List (Envelope M))
          → is_some (after_buffer codec (poll codec fuel) s next) ≡ true
      buffer is_ending (some msg, rest) = refl
      buffer is_ending (none, rest) =
          poll_state-ends fuel (poll codec fuel) is_ending (record s { buffer = rest }) s.state
            short h

-- ===== src/P2p/MessageStream/Polls.antt =====
-- What a poll in src/p2p/connection/message_stream.rs gives.
use mathlib.Core.List.{append-nil}
use risq.Base.{
  ℕ, zero, suc, ◌+◌, ◌-◌, ◌≡◌, ◌≤◌, ◌<◌, refl, sym, ap, ◌∙◌, false, Option, none, some, List, [],
  ◌∷◌, ◌++◌, length, ltb, arith, some-injective, none-absurd, subst,
}
use risq.P2p.MessageStream.{
  Envelope, Reader, StreamState, message_in_progress, between_messages, empty, MessageStream,
  Progress, waiting, ended, filled, read_size, read_body, size_buffer, next_from_buffer, Polled,
  ready, pending, failed, panicked, Codec, Poll, moved, after_varint, after_size, after_decode,
  after_body, poll_state, after_buffer, poll,
}
use risq.P2p.MessageStream.Reads.{bytes_of}
use risq.P2p.MessageStream.Output.{
  messages, buffered, sized, finish, output, output-empty, remaining, IsSizeRead,
  read_size-IsSizeRead, IsBodyRead, read_body-IsBodyRead,
}
use risq.P2p.MessageStream.Buffer.{IsNext, next_from_buffer-IsNext}

-- A size of which some bytes are missing has fewer than ten.
abbrev pub IsOpen : StreamState → Type 0
IsOpen (between_messages buf) = length buf < 10
IsOpen _ = Unit

module _ {M : Type 0} (codec : Codec M) where
  -- What a poll gives is what the bytes say: the next message, where it gives one, and no more
  -- messages where it fails. A stream that has finished panics.
  abbrev pub IsPolled : MessageStream M → Polled M × MessageStream M → Type 0
  IsPolled s (ready msg, s') = (remaining codec s ≡ msg ∷ remaining codec s') × IsOpen s'.state
  IsPolled s (pending, s') = (remaining codec s ≡ remaining codec s') × IsOpen s'.state
  IsPolled s (failed, s') = remaining codec s ≡ []
  IsPolled s (panicked, s') = remaining codec s ≡ []

  -- What the rest of a poll does.
  abbrev IsAgain : (MessageStream M → Poll M) → Type 0
  IsAgain again =
      (s : MessageStream M) (r : Polled M × MessageStream M)
      → IsOpen s.state
      → again s ≡ some r
      → IsPolled s r

  IsPolled-eq :
      (s t : MessageStream M) (r : Polled M × MessageStream M)
      → remaining codec s ≡ remaining codec t
      → IsPolled t r
      → IsPolled s r
  IsPolled-eq s t (ready msg, s') e (h, k) = (e ∙ h, k)
  IsPolled-eq s t (pending, s') e (h, k) = (e ∙ h, k)
  IsPolled-eq s t (failed, s') e h = e ∙ h
  IsPolled-eq s t (panicked, s') e h = e ∙ h

  -- Where all bytes of a message are there, its messages stand first.
  pub output-full :
      (size : ℕ) (buf bytes : List ℕ)
      → size ≤ length buf
      → output codec (message_in_progress size buf) bytes
        ≡ (finish codec (codec.decode buf)).1
          ++ output codec (finish codec (codec.decode buf)).0 bytes
  unfolding output
  output-full size buf bytes h =
      let full : ltb (length buf) size ≡ false = ground (arith, h) in
      go full bytes (codec.decode buf) refl
    where
      go :
          ltb (length buf) size ≡ false
          → (bytes : List ℕ) (d : Option (Envelope M)) → codec.decode buf ≡ d
          → output codec (message_in_progress size buf) bytes
            ≡ (finish codec d).1 ++ output codec (finish codec d).0 bytes
      go full [] none e = rw (full, output, e) refl
      go full (b ∷ bs) none e = rw (full, output, e) refl
      go full [] (some envelope) e = rw (full, output, e) (sym (append-nil (messages envelope)))
      go full (b ∷ bs) (some envelope) e = rw (full, output, e) refl

  module _ (again : MessageStream M → Poll M) (is_again : IsAgain again) (reader : Reader)
      (state : StreamState) where
    -- The stream with an empty buffer
    abbrev plain : MessageStream M
    plain = record { reader = reader; state = state; buffer = [] }

    after_varint-IsPolled :
        (buf : List ℕ) (reader' : Reader) (size : Option ℕ) {r : Polled M × MessageStream M}
        → output codec (sized codec size) (bytes_of reader') ≡ output codec state (bytes_of reader)
        → after_varint codec again plain buf reader' size ≡ some r
        → IsPolled plain r
    after_varint-IsPolled buf reader' none e h =
        subst (IsPolled plain) (some-injective h) (sym e ∙ output-empty codec (bytes_of reader'))
    after_varint-IsPolled buf reader' (some size) {r} e h =
        let t = moved codec again plain reader' (message_in_progress size []) in
        IsPolled-eq plain t r (sym e) (is_again t r tt h)

    after_size-IsPolled :
        (buf : List ℕ) (p : Progress) {r : Polled M × MessageStream M}
        → state ≡ between_messages buf
        → IsSizeRead codec buf (bytes_of reader) p
        → after_size codec again plain p ≡ some r
        → IsPolled plain r
    after_size-IsPolled buf (waiting buf' reader') is_state (short, e) h =
        subst (IsPolled plain) (some-injective h)
          (ap (λ i. output codec i (bytes_of reader)) is_state ∙ sym e, short)
    after_size-IsPolled buf (ended buf' reader') is_state e h =
        subst (IsPolled plain) (some-injective h)
          (ap (λ i. output codec i (bytes_of reader)) is_state ∙ e)
    after_size-IsPolled buf (filled buf' reader') is_state e h =
        after_varint-IsPolled buf' reader' (codec.decode_varint buf')
          (e ∙ ap (λ i. output codec i (bytes_of reader)) (sym is_state)) h

    after_decode-IsPolled :
        (reader' : Reader) (envelope : Option (Envelope M)) {r : Polled M × MessageStream M}
        → (finish codec envelope).1 ++ output codec (finish codec envelope).0 (bytes_of reader')
          ≡ output codec state (bytes_of reader)
        → after_decode codec again plain reader' envelope ≡ some r
        → IsPolled plain r
    after_decode-IsPolled reader' none e h =
        subst (IsPolled plain) (some-injective h) (sym e ∙ output-empty codec (bytes_of reader'))
    after_decode-IsPolled reader' (some envelope) {r} e h =
        let t : MessageStream M = record {
          reader = reader';
          state = between_messages [];
          buffer = envelope ∷ [];
        } in
        IsPolled-eq plain t r
          (sym e
            ∙ ap (λ i. i ++ output codec (between_messages []) (bytes_of reader'))
                (sym (append-nil (messages envelope))))
          (is_again t r (omega arith) h)

    after_body-IsPolled :
        (size : ℕ) (buf : List ℕ) (p : Progress) {r : Polled M × MessageStream M}
        → state ≡ message_in_progress size buf
        → IsBodyRead codec size buf (bytes_of reader) p
        → after_body codec again plain size p ≡ some r
        → IsPolled plain r
    after_body-IsPolled size buf (waiting buf' reader') is_state e h =
        subst (IsPolled plain) (some-injective h)
          (ap (λ i. output codec i (bytes_of reader)) is_state ∙ sym e, tt)
    after_body-IsPolled size buf (ended buf' reader') is_state e h =
        subst (IsPolled plain) (some-injective h)
          (ap (λ i. output codec i (bytes_of reader)) is_state ∙ e)
    after_body-IsPolled size buf (filled buf' reader') is_state (full, e) h =
        after_decode-IsPolled reader' (codec.decode buf')
          (sym (output-full size buf' (bytes_of reader') full)
            ∙ e
            ∙ ap (λ i. output codec i (bytes_of reader)) (sym is_state))
          h

    read_any :
        (k : ℕ) (buf : List ℕ)
        → length buf + k ≡ 10
        → 1 ≤ k
        → IsSizeRead codec buf (bytes_of reader) (read_size k buf reader)
    read_any zero buf e h = absurd (omega (arith, h))
    read_any (suc left) buf e h = read_size-IsSizeRead codec left buf reader e

    poll_state-IsPolled :
        (i : StreamState) {r : Polled M × MessageStream M}
        → state ≡ i
        → IsOpen i
        → poll_state codec again plain i ≡ some r
        → IsPolled plain r
    poll_state-IsPolled empty e short h =
        subst (IsPolled plain) (some-injective h)
          (ap (λ i. output codec i (bytes_of reader)) e ∙ output-empty codec (bytes_of reader))
    poll_state-IsPolled (between_messages buf) e short h =
        after_size-IsPolled buf (read_size (10 - length buf) buf reader) e
          (read_any (10 - length buf) buf (omega (arith, short)) (omega (arith, short))) h
    poll_state-IsPolled (message_in_progress size buf) e short h =
        after_body-IsPolled size buf (read_body (size - length buf) size buf reader) e
          (read_body-IsBodyRead codec (size - length buf) size buf reader (omega arith)) h

  module _ (again : MessageStream M → Poll M) (is_again : IsAgain again) where
    after_buffer-IsPolled :
        (s : MessageStream M) (next : Option M × List (Envelope M)) {r : Polled M × MessageStream M}
        → IsOpen s.state
        → IsNext (buffered s.buffer) next
        → after_buffer codec again s next ≡ some r
        → IsPolled s r
    after_buffer-IsPolled s (some msg, buffer) short e h =
        subst (IsPolled s) (some-injective h)
          (ap (λ i. i ++ output codec s.state (bytes_of s.reader)) e, short)
    after_buffer-IsPolled s (none, buffer) {r} short (nothing, e) h =
        IsPolled-eq s (record s { buffer = [] }) r
          (ap (λ i. i ++ output codec s.state (bytes_of s.reader)) nothing)
          (poll_state-IsPolled again is_again s.reader s.state s.state refl short
            (ap (λ i. poll_state codec again (record s { buffer = i }) s.state) (sym e) ∙ h))

  -- From a state where fewer than ten bytes of a size are read, a poll that has fuel enough gives
  -- what the bytes to come say, however they are cut into chunks and whenever they arrive: the
  -- first message that is left, if it gives one, with just the others left after it; all of them
  -- are left where it waits for bytes; and where it fails or panics, no message was left. A poll
  -- that gives a message or waits leaves such a state.
  pub poll-IsPolled :
      (fuel : ℕ) (s : MessageStream M) (r : Polled M × MessageStream M)
      → IsOpen s.state
      → poll codec fuel s ≡ some r
      → IsPolled s r
  unfolding poll
  poll-IsPolled zero s r short h = none-absurd h
  poll-IsPolled (suc fuel) s r short h =
      after_buffer-IsPolled (poll codec fuel) (poll-IsPolled fuel) s
        (next_from_buffer (size_buffer s.buffer) s.buffer) short
        (next_from_buffer-IsNext (size_buffer s.buffer) s.buffer (omega arith)) h

-- ===== src/P2p/MessageStream/Tests.antt =====
-- The stream of src/p2p/connection/message_stream.rs at work, with messages of one byte.
use risq.Base.{ℕ, ◌≡◌, refl, true, Option, none, some, is_some, List, [], ◌∷◌, arith}
use risq.P2p.MessageStream.{
  Envelope, without_message, single, bundle_of_envelopes, no_envelopes, more_envelopes, Reader,
  not_ready, arrived, MessageStream, new_stream, Codec, Polled, ready, pending, poll, poll_read,
  read_size, read_body, next_from_buffer,
}
use risq.P2p.MessageStream.Output.{output, remaining}
use risq.P2p.MessageStream.Polls.{IsPolled, poll-IsPolled}
use risq.P2p.MessageStream.Ends.{poll_ends}

abbrev first_byte : List ℕ → Option ℕ
first_byte [] = none
first_byte (b ∷ bs) = some b

-- No byte is an empty envelope, one is a message, and two are a bundle of two messages.
abbrev envelope_of : List ℕ → Option (Envelope ℕ)
envelope_of [] = some without_message
envelope_of (b ∷ []) = some (single b)
envelope_of (b ∷ (c ∷ bs)) =
    some (bundle_of_envelopes (more_envelopes (single b) (more_envelopes (single c) no_envelopes)))

abbrev sample_codec : Codec ℕ
sample_codec = record { decode_varint = first_byte; decode = envelope_of }

-- An empty frame, a frame of two bytes that comes in two parts, and the size of a third one.
abbrev sample_reader : Reader
sample_reader = arrived 0 (2 ∷ 7 ∷ []) ∷ (not_ready ∷ (arrived 8 (1 ∷ []) ∷ []))

abbrev sample_stream : MessageStream ℕ
sample_stream = new_stream sample_reader

abbrev polled_or : Option (Polled ℕ × MessageStream ℕ) → Polled ℕ × MessageStream ℕ
polled_or none = (pending, sample_stream)
polled_or (some r) = r

abbrev first_poll : Polled ℕ × MessageStream ℕ
unfolding poll next_from_buffer read_size read_body poll_read
first_poll = polled_or (poll sample_codec 20 sample_stream)

abbrev second_poll : Polled ℕ × MessageStream ℕ
unfolding poll next_from_buffer read_size read_body poll_read
second_poll = polled_or (poll sample_codec 20 first_poll.1)

first_waits : first_poll.0 ≡ pending
unfolding first_poll
first_waits = refl

second_gives : second_poll.0 ≡ ready 7
unfolding second_poll first_poll
second_gives = refl

both_messages : remaining sample_codec sample_stream ≡ 7 ∷ (8 ∷ [])
unfolding output
both_messages = refl

poll-IsPolled_example : IsPolled sample_codec first_poll.1 second_poll
unfolding poll next_from_buffer read_size read_body poll_read
poll-IsPolled_example = poll-IsPolled sample_codec 20 first_poll.1 second_poll tt refl

poll_ends_example : is_some (poll sample_codec 11 sample_stream) ≡ true
poll_ends_example = poll_ends sample_codec 11 sample_stream (omega arith) (omega arith)

-- ===== src/P2p/Connection/Writer.antt =====
-- The future in `from_tcp_stream` of src/p2p/connection.rs, which writes what the channel of a
-- connection gives to its socket. `encode_length_delimited` (the crate prost) is a parameter.
use risq.Base.{ℕ, List, [], ◌∷◌, ◌++◌, take}
use risq.Base.Int.{ℤ}
use risq.P2p.MessageStream.{Envelope}

-- What becomes of a write: all bytes are written, or an error comes after so many.
pub data Write : Type 0 where
  whole : Write
  broken : ℕ → Write

-- The bytes that go to the socket, for the envelopes of the messages that the channel gives and
-- what becomes of each. The loop ends with the first error.
unfoldable pub write_loop :
    {M : Type 0} → (ℤ → Envelope M → List ℕ) → ℤ → List (Envelope M × Write) → List ℕ
write_loop encode version [] = []
write_loop encode version ((envelope, whole) ∷ rest) =
    encode version envelope ++ write_loop encode version rest
write_loop encode version ((envelope, broken written) ∷ rest) =
    take written (encode version envelope)

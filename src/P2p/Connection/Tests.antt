-- ===== src/P2p/Connection/Tests.antt =====
-- The connection of src/p2p/connection.rs at work.
use risq.Base.{ℕ, ◌≡◌, refl, sym, arith, Option, true, none, some, List, [], ◌∷◌}
use risq.Base.HashMap.{get, insert, remove}
use risq.Payload.Message.{NetworkMessage, pong, get_peers_response}
use risq.Correlation.{
  of_i32, correlation_id, correlation_eq, Request, ping_peer, request_message, extract_response,
}
use risq.P2p.Connection.{
  Connection, received, from_tcp_stream, handle_message, handle_request, on_input, run_inputs,
}
use risq.Base.Int.{ℤ, pos}
use risq.P2p.MessageStream.{
  Envelope, single, without_message, Codec, Reader, arrived, not_ready, new_stream,
}
use risq.P2p.MessageStream.Output.{remaining}
use risq.P2p.Connection.Writer.{Write, whole, broken, write_loop}
use risq.P2p.Connection.Wire.{IsCoded, remaining-write_loop}
use risq.P2p.Connection.Responses.{response_reaches}

abbrev sample_ping : Request ℕ
sample_ping = ping_peer (record { nonce = pos 4; last_round_trip_time = pos 0 })

abbrev sample_pong : ℕ → NetworkMessage ℕ
sample_pong n = pong (record { request_nonce = pos n })

abbrev connection_or : Option (Connection ℕ) → Connection ℕ
connection_or none = from_tcp_stream
connection_or (some conn) = conn

abbrev asked : Connection ℕ
unfolding handle_request request_message correlation_id insert remove
asked = connection_or (handle_request 1 sample_ping from_tcp_stream)

-- A pong with the nonce of another request arrives first.
abbrev strayed : Connection ℕ
unfolding handle_request request_message correlation_id insert remove get handle_message
strayed = connection_or (handle_message (λ n. true) (sample_pong 5) asked)

response_reaches_example :
    (done : Connection ℕ) × (handle_message (λ n. true) (sample_pong 4) strayed ≡ some done)
    × (done.responses ≡ (1, some (sample_pong 4)) ∷ [])
    × (done.dispatched ≡ sample_pong 5 ∷ [])
    × (get (of_i32 (pos 4)) done.response_channels ≡ none)
unfolding handle_request request_message correlation_id insert remove get handle_message on_input
    run_inputs extract_response
response_reaches_example =
    response_reaches (λ n. true) 1 sample_ping (received (sample_pong 5) ∷ []) (sample_pong 4)
      from_tcp_stream {after = asked} {before = strayed} refl ((λ e. ground arith), tt) refl refl
      refl

-- Another kind of response with the nonce of a ping makes the future of the ping panic.
mismatched_response : extract_response sample_ping (get_peers_response (pos 4) []) ≡ none
unfolding extract_response
mismatched_response = refl

-- Envelopes of one byte, which prost gives a size of one byte.
abbrev head_byte : List ℕ → Option ℕ
head_byte [] = none
head_byte (b ∷ bs) = some b

abbrev decode_byte : List ℕ → Option (Envelope ℕ)
decode_byte [] = some without_message
decode_byte (b ∷ bs) = some (single b)

abbrev byte_codec : Codec ℕ
byte_codec = record { decode_varint = head_byte; decode = decode_byte }

abbrev encode_byte : ℤ → Envelope ℕ → List ℕ
encode_byte version (single b) = 1 ∷ b ∷ []
encode_byte version _ = 0 ∷ []

encode_byte-IsCoded : (b : ℕ) → IsCoded byte_codec (encode_byte (pos 11) (single b)) (single b)
encode_byte-IsCoded b = record {
  head = 1 ∷ [];
  body = b ∷ [];
  framed = refl;
  is_varint = omega arith;
  short = omega arith;
  sized_back = refl;
  read_back = refl;
}

-- Two messages, and a part of a third.
abbrev writes : List (Envelope ℕ × Write)
writes = (single 7, whole) ∷ (single 8, whole) ∷ (single 9, broken 1) ∷ []

abbrev late_reader : Reader
late_reader = arrived 1 (7 ∷ 1 ∷ []) ∷ not_ready ∷ arrived 8 (1 ∷ []) ∷ []

written : write_loop encode_byte (pos 11) writes ≡ 1 ∷ 7 ∷ 1 ∷ 8 ∷ 1 ∷ []
unfolding write_loop
written = refl

remaining-write_loop_example : remaining byte_codec (new_stream late_reader) ≡ 7 ∷ 8 ∷ []
remaining-write_loop_example =
    remaining-write_loop byte_codec encode_byte (pos 11) writes late_reader
      (encode_byte-IsCoded 7, (encode_byte-IsCoded 8, ((encode_byte-IsCoded 9, omega arith), tt)))
      (sym written)

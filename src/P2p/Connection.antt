-- ===== src/P2p/Connection.antt =====
-- src/p2p/connection.rs: the actor of a connection, which gives each response to the request that
-- it answers and every other message to the dispatcher. `none` is a panic.
pub mod Responses
pub mod Writer
pub mod Wire
mod Tests
use risq.Base.{ℕ, Bool, Option, none, some, List, [], ◌∷◌, ◌>>=◌, if◌then◌else◌}
use risq.Base.HashMap.{HashMap, get, insert, remove}
use risq.Payload.Message.{NetworkMessage}
use risq.Correlation.{
  CorrelationId, correlation_id, correlation_eq, Request, request_message, extract_response,
}

-- The sending half of a `oneshot` channel: its number, and the request whose future has the other
-- half and extracts the response.
pub record Channel (F : Type 0) : Type 0 where
  pub number : ℕ
  pub request : Request F

-- `written` is what goes to the socket, `dispatched` what goes to the dispatcher, and `responses`
-- what the futures of the requests come to: `none` is the panic of an extractor. All have the
-- latest first.
pub record Connection (F : Type 0) : Type 0 where
  pub response_channels : HashMap CorrelationId (Channel F)
  pub written : List (NetworkMessage F)
  pub dispatched : List (NetworkMessage F)
  pub responses : List (ℕ × Option (NetworkMessage F))

-- What happens to the actor between its start and its end.
pub data Input (F : Type 0) : Type 0 where
  received : NetworkMessage F → Input F
  requested : ℕ → Request F → Input F
  posted : NetworkMessage F → Input F

module _ {F : Type 0} where
  -- The state that `from_tcp_stream` makes.
  abbrev pub from_tcp_stream : Connection F
  from_tcp_stream = record { response_channels = []; written = []; dispatched = []; responses = [] }

  abbrev pub channel_of : Option CorrelationId → Connection F → Option (Channel F)
  channel_of none conn = none
  channel_of (some id) conn = get id conn.response_channels

  abbrev pub without_channel : Option CorrelationId → Connection F → Connection F
  without_channel none conn = conn
  without_channel (some id) conn = record conn {
    response_channels = remove id conn.response_channels;
  }

  abbrev pub dispatch_message : NetworkMessage F → Connection F → Connection F
  dispatch_message msg conn = record conn { dispatched = msg ∷ conn.dispatched }

  abbrev pub respond : Channel F → NetworkMessage F → Connection F → Connection F
  respond channel msg conn = record conn {
    responses = (channel.number, extract_response channel.request msg) ∷ conn.responses;
  }

  -- `StreamHandler::handle`. `listening` tells which receivers are still there; `channel.send`
  -- panics where one is not.
  unfoldable pub handle_message :
      (ℕ → Bool) → NetworkMessage F → Connection F → Option (Connection F)
  handle_message listening msg conn =
      let id = correlation_id msg in
      elim (channel_of id conn) [
        | none ↦ some (dispatch_message msg conn)
        | some channel ↦
            if listening channel.number
            then some (respond channel msg (without_channel id conn))
            else none
      ]

  -- `Handler<Payload>`
  abbrev pub handle_payload : NetworkMessage F → Connection F → Connection F
  handle_payload msg conn = record conn { written = msg ∷ conn.written }

  -- `Handler<Request>`, with the number of the new channel. A channel of the same id is dropped.
  unfoldable pub handle_request : ℕ → Request F → Connection F → Option (Connection F)
  handle_request number request conn = do
    id ← correlation_id (request_message request)
    some (
        handle_payload (request_message request) (record conn {
          response_channels =
              insert id (record { number = number; request = request }) conn.response_channels;
        }))

  unfoldable pub on_input : (ℕ → Bool) → Input F → Connection F → Option (Connection F)
  on_input listening (received msg) conn = handle_message listening msg conn
  on_input listening (requested number request) conn = handle_request number request conn
  on_input listening (posted msg) conn = some (handle_payload msg conn)

  unfoldable pub run_inputs : (ℕ → Bool) → List (Input F) → Connection F → Option (Connection F)
  run_inputs listening [] conn = some conn
  run_inputs listening (i ∷ is) conn = do
    conn' ← on_input listening i conn
    run_inputs listening is conn'

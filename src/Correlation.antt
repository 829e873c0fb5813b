-- ===== src/Correlation.antt =====
-- src/bisq/correlation.rs: what tells which response answers a request.
use risq.Base.{
  ℕ, String, ◌≡◌, ◌↔◌, Bool, true, false, Option, none, some, List, Eq, ◌==◌, string_eq, nat_eq,
  arith, nat_beq,
}
use risq.Base.Int.{ℤ, pos, negsuc}
use risq.Payload.Message

-- `S` of a string and `I` of an `i32`
pub data CorrelationId : Type 0 where
  of_string : String → CorrelationId
  of_i32 : ℤ → CorrelationId

-- `From<&Message>`
unfoldable pub correlation_id : {F : Type 0} → Message.NetworkMessage F → Option CorrelationId
correlation_id (Message.preliminary_get_data_request nonce rest) = some (of_i32 nonce)
correlation_id (Message.get_data_response response) = some (of_i32 response.request_nonce)
correlation_id (Message.get_updated_data_request nonce rest) = some (of_i32 nonce)
correlation_id (Message.get_peers_request nonce rest) = some (of_i32 nonce)
correlation_id (Message.get_peers_response nonce rest) = some (of_i32 nonce)
correlation_id (Message.ping request) = some (of_i32 request.nonce)
correlation_id (Message.pong response) = some (of_i32 response.request_nonce)
correlation_id (Message.offer_availability_request id rest) = some (of_string id)
correlation_id (Message.offer_availability_response id rest) = some (of_string id)
correlation_id (Message.refresh_offer_message msg) = none
correlation_id (Message.add_data_message msg) = none
correlation_id (Message.remove_data_message msg) = none
correlation_id (Message.inputs_for_deposit_tx_request uid rest) = some (of_string uid)
correlation_id (Message.inputs_for_deposit_tx_response uid rest) = some (of_string uid)
correlation_id (Message.get_blocks_request nonce rest) = some (of_i32 nonce)
correlation_id (Message.get_blocks_response nonce rest) = some (of_i32 nonce)
correlation_id (Message.add_persistable_network_payload_message msg) = none
correlation_id (Message.get_dao_state_hashes_request nonce rest) = some (of_i32 nonce)
correlation_id (Message.get_dao_state_hashes_response nonce rest) = some (of_i32 nonce)
correlation_id (Message.get_proposal_state_hashes_request nonce rest) = some (of_i32 nonce)
correlation_id (Message.get_proposal_state_hashes_response nonce rest) = some (of_i32 nonce)
correlation_id (Message.get_blind_vote_state_hashes_request nonce rest) = some (of_i32 nonce)
correlation_id (Message.get_blind_vote_state_hashes_response nonce rest) = some (of_i32 nonce)
correlation_id (Message.delayed_payout_tx_signature_request uid rest) = some (of_string uid)
correlation_id (Message.delayed_payout_tx_signature_response uid rest) = some (of_string uid)
correlation_id (Message.unread kind rest) = none

abbrev int_beq : ℤ → ℤ → Bool
int_beq (pos m) (pos n) = nat_beq m n
int_beq (negsuc m) (negsuc n) = nat_beq m n
int_beq _ _ = false

abbrev correlation_beq : CorrelationId → CorrelationId → Bool
correlation_beq (of_string a) (of_string b) = a == b
correlation_beq (of_i32 a) (of_i32 b) = int_beq a b
correlation_beq _ _ = false

pub correlation_beq_iff : (a b : CorrelationId) → (correlation_beq a b ≡ true) ↔ (a ≡ b)
correlation_beq_iff (of_string a) (of_string b) = ground (arith, string_eq.beq_iff a b)
correlation_beq_iff (of_string a) (of_i32 b) = ground arith
correlation_beq_iff (of_i32 a) (of_string b) = ground arith
correlation_beq_iff (of_i32 (pos a)) (of_i32 (pos b)) = ground arith
correlation_beq_iff (of_i32 (pos a)) (of_i32 (negsuc b)) = ground arith
correlation_beq_iff (of_i32 (negsuc a)) (of_i32 (pos b)) = ground arith
correlation_beq_iff (of_i32 (negsuc a)) (of_i32 (negsuc b)) = ground arith

instance abbrev pub correlation_eq : Eq CorrelationId
correlation_eq = record { beq = correlation_beq; beq_iff = correlation_beq_iff }

-- The requests that the program makes: the types with a `ResponseExtractor`.
pub data Request (F : Type 0) : Type 0 where
  preliminary_get_data : ℤ → List ℕ → Request F
  get_updated_data : ℤ → List ℕ → Request F
  get_peers : ℤ → List ℕ → Request F
  ping_peer : Message.Ping → Request F

module _ {F : Type 0} where
  -- `Into<network_envelope::Message>`
  unfoldable pub request_message : Request F → Message.NetworkMessage F
  request_message (preliminary_get_data nonce rest) =
      Message.preliminary_get_data_request nonce rest
  request_message (get_updated_data nonce rest) = Message.get_updated_data_request nonce rest
  request_message (get_peers nonce rest) = Message.get_peers_request nonce rest
  request_message (ping_peer ping) = Message.ping ping

  abbrev data_response : Message.NetworkMessage F → Option (Message.NetworkMessage F)
  data_response (Message.get_data_response response) = some (Message.get_data_response response)
  data_response _ = none

  abbrev peers_response : Message.NetworkMessage F → Option (Message.NetworkMessage F)
  peers_response (Message.get_peers_response nonce rest) =
      some (Message.get_peers_response nonce rest)
  peers_response _ = none

  abbrev pong_response : Message.NetworkMessage F → Option (Message.NetworkMessage F)
  pong_response (Message.pong response) = some (Message.pong response)
  pong_response _ = none

  -- `ResponseExtractor::extract`; `none` is the panic of `expect`.
  unfoldable pub extract_response :
      Request F → Message.NetworkMessage F → Option (Message.NetworkMessage F)
  extract_response (preliminary_get_data nonce rest) msg = data_response msg
  extract_response (get_updated_data nonce rest) msg = data_response msg
  extract_response (get_peers nonce rest) msg = peers_response msg
  extract_response (ping_peer ping) msg = pong_response msg

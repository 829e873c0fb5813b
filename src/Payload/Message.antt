-- ===== src/Payload/Message.antt =====
-- `network_envelope::Message` of src/generated/io.bisq.protobuffer.rs. `unread` stands for the
-- kinds that no code of the repository reads, by the number of the variant and the encoded fields.
use risq.Base.{ℕ, String, Bool, Option, List}
use risq.Base.Int.{ℤ}
use risq.Payload.Types.{
  ProtectedStorageEntry, StorageEntryWrapper, RefreshOfferMessage, PersistableNetworkPayload,
}

pub record GetDataResponse (F : Type 0) : Type 0 where
  pub request_nonce : ℤ
  pub is_get_updated_data_response : Bool
  pub data_set : List (StorageEntryWrapper F)
  pub supported_capabilities : List ℤ
  pub persistable_network_payload_items : List PersistableNetworkPayload

pub record AddDataMessage (F : Type 0) : Type 0 where
  pub entry : Option (StorageEntryWrapper F)

pub record RemoveDataMessage (F : Type 0) : Type 0 where
  pub protected_storage_entry : Option (ProtectedStorageEntry F)

pub record AddPersistableNetworkPayloadMessage : Type 0 where
  pub payload : Option PersistableNetworkPayload

pub record Ping : Type 0 where
  pub nonce : ℤ
  pub last_round_trip_time : ℤ

pub record Pong : Type 0 where
  pub request_nonce : ℤ

-- A message by its kind. The requests and responses without a record above carry what correlates
-- them (a nonce, the offer's id or a uid), and the rest of their fields encoded.
pub data NetworkMessage (F : Type 0) : Type 0 where
  preliminary_get_data_request : ℤ → List ℕ → NetworkMessage F
  get_data_response : GetDataResponse F → NetworkMessage F
  get_updated_data_request : ℤ → List ℕ → NetworkMessage F
  get_peers_request : ℤ → List ℕ → NetworkMessage F
  get_peers_response : ℤ → List ℕ → NetworkMessage F
  ping : Ping → NetworkMessage F
  pong : Pong → NetworkMessage F
  refresh_offer_message : RefreshOfferMessage → NetworkMessage F
  add_data_message : AddDataMessage F → NetworkMessage F
  remove_data_message : RemoveDataMessage F → NetworkMessage F
  add_persistable_network_payload_message : AddPersistableNetworkPayloadMessage → NetworkMessage F
  offer_availability_request : String → List ℕ → NetworkMessage F
  offer_availability_response : String → List ℕ → NetworkMessage F
  inputs_for_deposit_tx_request : String → List ℕ → NetworkMessage F
  inputs_for_deposit_tx_response : String → List ℕ → NetworkMessage F
  get_blocks_request : ℤ → List ℕ → NetworkMessage F
  get_blocks_response : ℤ → List ℕ → NetworkMessage F
  get_dao_state_hashes_request : ℤ → List ℕ → NetworkMessage F
  get_dao_state_hashes_response : ℤ → List ℕ → NetworkMessage F
  get_proposal_state_hashes_request : ℤ → List ℕ → NetworkMessage F
  get_proposal_state_hashes_response : ℤ → List ℕ → NetworkMessage F
  get_blind_vote_state_hashes_request : ℤ → List ℕ → NetworkMessage F
  get_blind_vote_state_hashes_response : ℤ → List ℕ → NetworkMessage F
  delayed_payout_tx_signature_request : String → List ℕ → NetworkMessage F
  delayed_payout_tx_signature_response : String → List ℕ → NetworkMessage F
  unread : ℕ → List ℕ → NetworkMessage F

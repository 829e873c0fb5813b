-- ===== src/Payload/Types.antt =====
-- The messages of src/generated/io.bisq.protobuffer.rs that the data router reads. `rest` holds the
-- fields that no code of the repository reads, encoded.
use risq.Base.{ℕ, String, Bool, Option, List}
use risq.Base.Int.{ℤ}

pub record PubKeyRing : Type 0 where
  pub signature_pub_key_bytes : List ℕ
  pub encryption_pub_key_bytes : List ℕ

-- `offer_payload::Direction`
pub data Direction : Type 0 where
  pb_error buy sell : Direction

pub record OfferPayload (F : Type 0) : Type 0 where
  pub id : String
  pub pub_key_ring : Option PubKeyRing
  pub direction : ℤ
  pub price : ℤ
  pub market_price_margin : F
  pub use_market_based_price : Bool
  pub amount : ℤ
  pub min_amount : ℤ
  pub base_currency_code : String
  pub counter_currency_code : String
  pub payment_method_id : String
  pub offer_fee_payment_tx_id : String
  pub rest : List ℕ

-- `storage_payload::Message`, each with the key that signs it.
pub data StorageMessage (F : Type 0) : Type 0 where
  alert : List ℕ → List ℕ → StorageMessage F
  arbitrator : Option PubKeyRing → List ℕ → StorageMessage F
  mediator : Option PubKeyRing → List ℕ → StorageMessage F
  filter : List ℕ → List ℕ → StorageMessage F
  trade_statistics : List ℕ → List ℕ → StorageMessage F
  mailbox_storage_payload : List ℕ → List ℕ → StorageMessage F
  offer_payload : OfferPayload F → StorageMessage F
  temp_proposal_payload : List ℕ → List ℕ → StorageMessage F
  refund_agent : Option PubKeyRing → List ℕ → StorageMessage F

pub record StoragePayload (F : Type 0) : Type 0 where
  pub message : Option (StorageMessage F)

pub record ProtectedStorageEntry (F : Type 0) : Type 0 where
  pub storage_payload : Option (StoragePayload F)
  pub owner_pub_key_bytes : List ℕ
  pub sequence_number : ℤ
  pub signature : List ℕ
  pub creation_time_stamp : ℤ

-- `storage_entry_wrapper::Message`; the mailbox entry has its entry and its receivers' key.
pub data WrappedEntry (F : Type 0) : Type 0 where
  protected_storage_entry : ProtectedStorageEntry F → WrappedEntry F
  protected_mailbox_storage_entry : Option (ProtectedStorageEntry F) → List ℕ → WrappedEntry F

pub record StorageEntryWrapper (F : Type 0) : Type 0 where
  pub message : Option (WrappedEntry F)

pub record RefreshOfferMessage : Type 0 where
  pub hash_of_data_and_seq_nr : List ℕ
  pub signature : List ℕ
  pub hash_of_payload : List ℕ
  pub sequence_number : ℤ

pub record DataAndSeqNrPair (F : Type 0) : Type 0 where
  pub payload : Option (StoragePayload F)
  pub sequence_number : ℤ

pub record TradeStatistics2 : Type 0 where
  pub base_currency : String
  pub counter_currency : String
  pub direction : ℤ
  pub trade_price : ℤ
  pub trade_amount : ℤ
  pub trade_date : ℤ
  pub payment_method_id : String
  pub offer_id : String
  pub hash : List ℕ
  pub rest : List ℕ

pub record SignedWitness : Type 0 where
  pub account_age_witness_hash : List ℕ
  pub signature : List ℕ
  pub signer_pub_key : List ℕ
  pub rest : List ℕ

-- `persistable_network_payload::Message`, those with a hash of their own with it first.
pub data PersistableMessage : Type 0 where
  account_age_witness : List ℕ → List ℕ → PersistableMessage
  trade_statistics2 : TradeStatistics2 → PersistableMessage
  proposal_payload : List ℕ → List ℕ → PersistableMessage
  blind_vote_payload : List ℕ → List ℕ → PersistableMessage
  signed_witness : SignedWitness → PersistableMessage

pub record PersistableNetworkPayload : Type 0 where
  pub message : Option PersistableMessage

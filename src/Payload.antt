-- ===== src/Payload.antt =====
-- src/bisq/payload.rs and src/bisq/payload/kind.rs: what the payloads are signed with and hashed
-- to. The encoding of messages (the crate prost) and cryptography are parameters.
pub mod Types
pub mod Message
pub mod Verify
pub mod Tests
use risq.Base.{
  ℕ, Bool, true, false, Option, none, some, List, ◌++◌, if◌then◌else◌, ◌>>=◌, ◌==◌, list_eq, nat_eq,
}
use risq.Base.Int.{ℤ}
use risq.Hash.{SequencedMessageHash, PersistentMessageHash}
use risq.Payload.Types.{
  PubKeyRing, StorageMessage, alert, arbitrator, mediator, filter, trade_statistics,
  mailbox_storage_payload, offer_payload, temp_proposal_payload, refund_agent, StoragePayload,
  ProtectedStorageEntry, RefreshOfferMessage, DataAndSeqNrPair, PersistableMessage,
  account_age_witness, trade_statistics2, proposal_payload, blind_vote_payload, signed_witness,
  PersistableNetworkPayload,
}

-- What the crates do: a message's bytes, the digests, a digest read from a slice of bytes (`none`
-- for another length), a verifier from the bytes of a DSA key, and its answer for a signature of
-- data.
pub record Crypto (F K : Type 0) : Type 0 where
  pub encode_payload : StoragePayload F → List ℕ
  pub encode_pair : DataAndSeqNrPair F → List ℕ
  pub sha256 : List ℕ → List ℕ
  pub ripemd160 : List ℕ → List ℕ
  pub sha256_from_slice : List ℕ → Option (List ℕ)
  pub ripemd160_from_slice : List ℕ → Option (List ℕ)
  pub dsa_verifier : List ℕ → Option K
  pub verify_oneshot : K → List ℕ → List ℕ → Option Bool

-- `StoragePayloadKind`; those that the source never makes are left out.
pub data StoragePayloadKind : Type 0 where
  offer_kind unknown_kind : StoragePayloadKind

abbrev pub kind_of_message : {F : Type 0} → Option (StorageMessage F) → StoragePayloadKind
kind_of_message none = unknown_kind
kind_of_message (some (offer_payload p)) = offer_kind
kind_of_message (some _) = unknown_kind

-- `From<&ProtectedStorageEntry>`
abbrev pub storage_payload_kind : {F : Type 0} → Option (StoragePayload F) → StoragePayloadKind
storage_payload_kind none = unknown_kind
storage_payload_kind (some payload) = kind_of_message payload.message

abbrev pub ring_key : Option PubKeyRing → Option (List ℕ)
ring_key none = none
ring_key (some ring) = some ring.signature_pub_key_bytes

abbrev pub message_key : {F : Type 0} → StorageMessage F → Option (List ℕ)
message_key (alert key rest) = some key
message_key (arbitrator ring rest) = ring_key ring
message_key (mediator ring rest) = ring_key ring
message_key (filter key rest) = some key
message_key (trade_statistics key rest) = some key
message_key (mailbox_storage_payload key rest) = some key
message_key (offer_payload offer) = ring_key offer.pub_key_ring
message_key (temp_proposal_payload key rest) = some key
message_key (refund_agent ring rest) = ring_key ring

unfoldable pub signing_pub_key_bytes : {F : Type 0} → StoragePayload F → Option (List ℕ)
signing_pub_key_bytes payload = do message ← payload.message; message_key message

module _ {F K : Type 0} (c : Crypto F K) where
  -- `StoragePayload::bisq_hash`
  abbrev pub payload_hash : StoragePayload F → SequencedMessageHash
  payload_hash payload = record { inner = c.sha256 (c.encode_payload payload) }

  abbrev pub pair_hash : StoragePayload F → ℤ → List ℕ
  pair_hash payload sequence_number =
      c.sha256
        (c.encode_pair (record { payload = some payload; sequence_number = sequence_number }))

  abbrev pub accept : {A : Type 0} → Bool → A → Option A
  accept true a = some a
  accept false a = none

  -- The end of both `verify`: the key's signature of the payload with the sequence number.
  abbrev pub verify_signature : {A : Type 0} → List ℕ → List ℕ → StoragePayload F → ℤ → A → Option A
  verify_signature key signature payload sequence_number result = do
    verifier ← c.dsa_verifier key
    verified ← c.verify_oneshot verifier signature (pair_hash payload sequence_number)
    accept verified result

  -- `ProtectedStorageEntry::verify`
  unfoldable pub verify_entry : ProtectedStorageEntry F → Option SequencedMessageHash
  verify_entry entry = do
    payload ← entry.storage_payload
    key ← signing_pub_key_bytes payload
    if key == entry.owner_pub_key_bytes
        then verify_signature entry.owner_pub_key_bytes entry.signature payload
            entry.sequence_number (payload_hash payload)
        else none

  abbrev pub sequenced_hash : List ℕ → SequencedMessageHash
  sequenced_hash inner = record { inner = inner }

  -- `RefreshOfferMessage::payload_hash`; `none` is the panic of `expect`.
  unfoldable pub refresh_hash : RefreshOfferMessage → Option SequencedMessageHash
  refresh_hash msg = do inner ← c.sha256_from_slice msg.hash_of_payload; some (sequenced_hash inner)

  -- `RefreshOfferMessage::verify`
  unfoldable pub verify_refresh :
      RefreshOfferMessage → List ℕ → StoragePayload F → Option (Unit {0})
  verify_refresh msg owner_pub_key original_payload =
      if pair_hash original_payload msg.sequence_number == msg.hash_of_data_and_seq_nr
      then verify_signature owner_pub_key msg.signature original_payload msg.sequence_number tt
      else none

  abbrev persistent_hash : List ℕ → PersistentMessageHash
  persistent_hash inner = record { inner = inner }

  abbrev pub slice_hash : List ℕ → Option PersistentMessageHash
  slice_hash bytes = do inner ← c.ripemd160_from_slice bytes; some (persistent_hash inner)

  abbrev pub message_hash : PersistableMessage → Option PersistentMessageHash
  message_hash (account_age_witness hash rest) = slice_hash hash
  message_hash (trade_statistics2 stats) = slice_hash stats.hash
  message_hash (proposal_payload hash rest) = slice_hash hash
  message_hash (blind_vote_payload hash rest) = slice_hash hash
  message_hash (signed_witness witness) = some (
      persistent_hash (
        c.ripemd160 (
          c.sha256
            (witness.account_age_witness_hash ++ (witness.signature ++ witness.signer_pub_key)))))

  -- `PersistableNetworkPayload::bisq_hash`; `none` is the panic of an `expect`.
  unfoldable pub bisq_hash : PersistableNetworkPayload → Option PersistentMessageHash
  bisq_hash payload = do message ← payload.message; message_hash message

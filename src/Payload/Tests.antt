-- ===== src/Payload/Tests.antt =====
-- The checks of src/bisq/payload.rs on small messages, with digests and signatures that are their
-- own data.
use risq.Base.{
  ℕ, ◌≡◌, refl, false, none, some, List, [], ◌∷◌, if◌then◌else◌, ◌==◌, list_eq, nat_eq, length,
  nat_beq,
}
use risq.Base.Int.{pos, pos_part}
use risq.Hash.{SequencedMessageHash}
use risq.Payload.Types.{
  OfferPayload, offer_payload, StoragePayload, ProtectedStorageEntry, RefreshOfferMessage,
}
use risq.Payload.{Crypto, verify_entry, verify_refresh, signing_pub_key_bytes, pair_hash}
use risq.Payload.Verify.{IsSigned, verify_refresh-IsSigned}

abbrev payload_bytes : StoragePayload ℕ → List ℕ
payload_bytes payload = 7 ∷ []

-- Every key is `0`, and a signature is the signed hash.
abbrev pub sample_crypto : Crypto ℕ ℕ
sample_crypto = record {
  encode_payload = payload_bytes;
  encode_pair = λ pair. pos_part pair.sequence_number ∷ [];
  sha256 = λ bytes. bytes;
  ripemd160 = λ bytes. bytes;
  sha256_from_slice = λ bytes. if nat_beq (length bytes) 1 then some bytes else none;
  ripemd160_from_slice = λ bytes. if nat_beq (length bytes) 1 then some bytes else none;
  dsa_verifier = λ key. some 0;
  verify_oneshot = λ key signature hash. some (signature == hash);
}

abbrev pub sample_offer_payload : OfferPayload ℕ
sample_offer_payload = record {
  id = "offer";
  pub_key_ring = some (record { signature_pub_key_bytes = 5 ∷ []; encryption_pub_key_bytes = [] });
  direction = pos 1;
  price = pos 80_000;
  market_price_margin = 0;
  use_market_based_price = false;
  amount = pos 100;
  min_amount = pos 10;
  base_currency_code = "BTC";
  counter_currency_code = "EUR";
  payment_method_id = "SEPA";
  offer_fee_payment_tx_id = "tx";
  rest = [];
}

abbrev pub sample_payload : StoragePayload ℕ
sample_payload = record { message = some (offer_payload sample_offer_payload) }

abbrev pub sample_entry : ℕ → ProtectedStorageEntry ℕ
sample_entry n = record {
  storage_payload = some sample_payload;
  owner_pub_key_bytes = 5 ∷ [];
  sequence_number = pos n;
  signature = n ∷ [];
  creation_time_stamp = pos 1;
}

abbrev pub sample_refresh : ℕ → RefreshOfferMessage
sample_refresh n = record {
  hash_of_data_and_seq_nr = n ∷ [];
  signature = n ∷ [];
  hash_of_payload = 7 ∷ [];
  sequence_number = pos n;
}

abbrev pub sample_hash : SequencedMessageHash
sample_hash = record { inner = 7 ∷ [] }

forged_entry : verify_entry sample_crypto (record (sample_entry 3) { signature = 2 ∷ [] }) ≡ none
unfolding verify_entry signing_pub_key_bytes
forged_entry = refl

foreign_entry :
    verify_entry sample_crypto (record (sample_entry 3) { owner_pub_key_bytes = 6 ∷ [] }) ≡ none
unfolding verify_entry signing_pub_key_bytes
foreign_entry = refl

verify_refresh-IsSigned_example :
    (pair_hash sample_crypto sample_payload (pos 4) ≡ 4 ∷ [])
    × IsSigned sample_crypto (5 ∷ []) (4 ∷ []) sample_payload (pos 4)
unfolding verify_refresh
verify_refresh-IsSigned_example =
    verify_refresh-IsSigned sample_crypto (sample_refresh 4) (5 ∷ []) sample_payload refl

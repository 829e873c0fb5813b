-- ===== src/Payload/Verify.antt =====
-- What an entry and a refresh that pass their checks have shown.
use risq.Base.Int.{ℤ}
use risq.Base.{
  ℕ, ◌≡◌, ap, ◌∙◌, >>=-eq-some, none-absurd, Bool-cases, inl, inr, beq→eq, Bool, true, false, some,
  List, ◌==◌, list_eq, nat_eq, arith,
}
use risq.Hash.{SequencedMessageHash}
use risq.Payload.Types.{StoragePayload, ProtectedStorageEntry, RefreshOfferMessage}
use risq.Payload.{
  Crypto, signing_pub_key_bytes, payload_hash, pair_hash, verify_entry, verify_refresh,
  verify_signature, accept,
}

module _ {F K : Type 0} (c : Crypto F K) where
  -- `key` has signed the payload with the sequence number.
  abbrev pub IsSigned : List ℕ → List ℕ → StoragePayload F → ℤ → Type 0
  IsSigned key signature payload sequence_number =
      (verifier : K) × (c.dsa_verifier key ≡ some verifier)
      × (c.verify_oneshot verifier signature (pair_hash c payload sequence_number) ≡ some true)

  accept-eq : {A : Type 0} (b : Bool) (a a' : A) → accept c b a ≡ some a' → (b ≡ true) × (a ≡ a')
  accept-eq true a a' h = ground arith
  accept-eq false a a' h = ground arith

  -- What `verify` of an entry tells of the payload `payload`.
  abbrev pub IsOwned : ProtectedStorageEntry F → SequencedMessageHash → StoragePayload F → Type 0
  IsOwned entry hash payload =
      (entry.storage_payload ≡ some payload)
      × (signing_pub_key_bytes payload ≡ some entry.owner_pub_key_bytes)
      × (payload_hash c payload ≡ hash)
      × IsSigned entry.owner_pub_key_bytes entry.signature payload entry.sequence_number

  signature_sound :
      {A : Type 0} (key signature : List ℕ) (payload : StoragePayload F) (sequence_number : ℤ)
      (result : A) {a : A}
      → verify_signature c key signature payload sequence_number result ≡ some a
      → (result ≡ a) × IsSigned key signature payload sequence_number
  signature_sound key signature payload sequence_number result {a} h =
      let (verifier, found, h1) = >>=-eq-some (c.dsa_verifier key) _ h in
      let (verified, answer, h2) =
        >>=-eq-some (c.verify_oneshot verifier signature (pair_hash c payload sequence_number)) _
          h1 in
      let (is_true, same) = accept-eq verified result a h2 in
      (same, (verifier, found, answer ∙ ap some is_true))

  -- An entry that `verify` accepts holds a payload that the entry's owner, who is the one the
  -- payload names, has signed with the entry's sequence number; the result is the payload's hash.
  pub verify_entry-IsOwned :
      (entry : ProtectedStorageEntry F) {hash : SequencedMessageHash}
      → verify_entry c entry ≡ some hash
      → (payload : StoragePayload F) × IsOwned entry hash payload
  unfolding verify_entry
  verify_entry-IsOwned entry {hash} h =
      let (payload, at, h1) = >>=-eq-some entry.storage_payload _ h in
      let (key, signer, h2) = >>=-eq-some (signing_pub_key_bytes payload) _ h1 in
      elim (Bool-cases (key == entry.owner_pub_key_bytes)) [
        | inl same ↦
            let (is_hash, signed) =
              signature_sound entry.owner_pub_key_bytes entry.signature payload
                entry.sequence_number (payload_hash c payload) (rw same at h2) in
            (
              payload,
              (at, signer ∙ ap some (beq→eq key entry.owner_pub_key_bytes same), is_hash, signed),
            )
        | inr other ↦ (none-absurd (rw other at h2))
      ]

  -- A refresh that `verify` accepts for a key and a payload carries the key's signature of the
  -- payload with the new sequence number, and the right hash of the two.
  pub verify_refresh-IsSigned :
      (msg : RefreshOfferMessage) (key : List ℕ) (payload : StoragePayload F)
      → verify_refresh c msg key payload ≡ some tt
      → (pair_hash c payload msg.sequence_number ≡ msg.hash_of_data_and_seq_nr)
        × IsSigned key msg.signature payload msg.sequence_number
  unfolding verify_refresh
  verify_refresh-IsSigned msg key payload h =
      let hash = pair_hash c payload msg.sequence_number in
      elim (Bool-cases (hash == msg.hash_of_data_and_seq_nr)) [
        | inl same ↦ (
          beq→eq hash msg.hash_of_data_and_seq_nr same,
          (signature_sound key msg.signature payload msg.sequence_number tt (rw same at h)).1,
        )
        | inr other ↦ none-absurd (rw other at h)
      ]

-- ===== src/DataRouter/Keeps.antt =====
-- What each part of src/daemon/data_router.rs keeps of the order of sequence numbers.
use risq.Base.{
  ℕ, ◌≡◌, refl, ◌⊎◌, Bool, true, false, Option, none, some, List, arith, inl, inr, Bool-cases,
  Option-cases,
}
use risq.Base.Int.{ℤ, ltb_ℤ}
use risq.Base.HashMap.{get}
use risq.Hash.{SequencedMessageHash, sequenced_eq, persistent_eq}
use risq.Offer.{OpenOffer}
use risq.Payload.Types.{StoragePayload, ProtectedStorageEntry}
use risq.Payload.{Crypto, StoragePayloadKind, offer_kind, unknown_kind, storage_payload_kind}
use risq.Convert.{open_offer}
use risq.Convert.Keeps.{open_offer-IsOf}
use risq.DataRouter.State.{
  DataRouter, SequencedMessageInfo, ResultHandler, set_info, should_deliver_sequenced, new_info,
  renewed,
}
use risq.DataRouter.Storage.{route_verified, offer_sent, storage_sent, without_owner}
use risq.DataRouter.Order.{IsOnly, known, Continues, Continues-same, set_info-Rising, Above, Upto}

module _ {F : Type 0} where
  offer_sent-IsOnly :
      (removing : Bool) (handler : ResultHandler F) (entry : ProtectedStorageEntry F)
      (hash : SequencedMessageHash) (o : Option (OpenOffer F))
      → open_offer entry hash ≡ o
      → IsOnly hash entry.sequence_number (offer_sent removing handler o)
  offer_sent-IsOnly removing handler entry hash none e = tt
  offer_sent-IsOnly true handler entry hash (some o) e =
      ground (arith, open_offer-IsOf entry hash e)
  offer_sent-IsOnly false handler entry hash (some o) e =
      ground (arith, open_offer-IsOf entry hash e)

  storage_sent-IsOnly :
      (removing : Bool) (handler : ResultHandler F) (entry : ProtectedStorageEntry F)
      (hash : SequencedMessageHash) (kind : StoragePayloadKind)
      → IsOnly hash entry.sequence_number (storage_sent removing handler entry hash kind)
  storage_sent-IsOnly removing handler entry hash offer_kind =
      offer_sent-IsOnly removing handler entry hash (open_offer entry hash) refl
  storage_sent-IsOnly removing handler entry hash unknown_kind = tt

  -- What `should_deliver_sequenced` answers: the new number is stored where it is higher, and
  -- nothing changes otherwise.
  abbrev pub IsDelivery : SequencedMessageHash → ℤ → DataRouter F → DataRouter F × Bool → Type 0
  IsDelivery hash s router answer =
      ((info : SequencedMessageInfo F) × (answer ≡ (set_info hash info router, true))
        × (info.sequence ≡ s)
        × Above (known hash router) (some s))
      ⊎ (answer ≡ (router, false)) × Upto (some s) (known hash router)

  pub deliver-IsDelivery :
      (now : ℕ) (hash : SequencedMessageHash) (s : ℤ) (owner_pub_key : List ℕ)
      (payload : StoragePayload F) (router : DataRouter F)
      → IsDelivery hash s router (should_deliver_sequenced now hash s owner_pub_key payload router)
  unfolding should_deliver_sequenced
  deliver-IsDelivery now hash s owner_pub_key payload router =
      elim (Option-cases (get hash router.sequenced_message_info)) [
        | inl new ↦ inl (
          new_info now s owner_pub_key payload,
          rw (new, should_deliver_sequenced),
          refl,
          rw new tt,
        )
        | inr (info, old) ↦ elim (Bool-cases (ltb_ℤ info.sequence s)) [
          | inl newer ↦ inl (
            renewed now s info,
            rw (old, newer, should_deliver_sequenced),
            refl,
            rw old (ground (arith, newer)),
          )
          | inr stale ↦
              inr (rw (old, stale, should_deliver_sequenced), rw old (ground (arith, stale)))
        ]
      ]

module _ {F K : Type 0} (c : Crypto F K) (now : ℕ) where
  pub route_verified-Continues :
      (removing : Bool) (entry : ProtectedStorageEntry F) (handler : ResultHandler F)
      (hash : SequencedMessageHash) (payload : StoragePayload F) (router : DataRouter F)
      → Continues router (route_verified c now removing entry handler hash payload router)
  unfolding route_verified
  route_verified-Continues removing entry handler hash payload router h =
      elim (deliver-IsDelivery now hash entry.sequence_number entry.owner_pub_key_bytes payload
        router) [
          | inl (info, eq, same, higher) ↦
              rw (eq, route_verified)
                (set_info-Rising h hash entry.sequence_number info router _ same higher (
                  storage_sent-IsOnly removing handler (without_owner entry) hash
                    (storage_payload_kind entry.storage_payload)))
          | inr (eq, low) ↦ rw (eq, route_verified) (Continues-same router h)
        ]

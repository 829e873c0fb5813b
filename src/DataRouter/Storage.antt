-- ===== src/DataRouter/Storage.antt =====
-- How src/daemon/data_router.rs and src/bisq/payload/kind.rs route the entries that their owners
-- sign.
use risq.Base.{ℕ, Bool, false, Option, none, some, List, [], ◌∷◌, ◌++◌, ◌>>=◌, if◌then◌else◌}
use risq.Hash.{SequencedMessageHash, sequenced_eq, persistent_eq}
use risq.Offer.{OpenOffer}
use risq.OfferBook.{Command, add_offer, remove_offer}
use risq.Payload.Types.{
  StoragePayload, ProtectedStorageEntry, StorageEntryWrapper, WrappedEntry, protected_storage_entry,
  protected_mailbox_storage_entry,
}
use risq.Payload.{
  Crypto, StoragePayloadKind, offer_kind, unknown_kind, storage_payload_kind, verify_entry,
}
use risq.Convert.{open_offer}
use risq.DataRouter.State.{
  DataRouter, ResultHandler, ignore_command_result, Sent, to_offer_book, Outcome,
  should_deliver_sequenced,
}

module _ {F : Type 0} where
  -- The message for an offer that did convert.
  abbrev pub offer_command : Bool → OpenOffer F → Command F
  offer_command removing offer = if removing then remove_offer offer else add_offer offer

  abbrev pub offer_sent : Bool → ResultHandler F → Option (OpenOffer F) → List (Sent F)
  offer_sent removing result_handler none = []
  offer_sent removing result_handler (some offer) =
      to_offer_book (offer_command removing offer) result_handler ∷ []

  abbrev pub storage_sent :
      Bool
      → ResultHandler F
      → ProtectedStorageEntry F
      → SequencedMessageHash
      → StoragePayloadKind
      → List (Sent F)
  storage_sent removing result_handler entry hash offer_kind =
      offer_sent removing result_handler (open_offer entry hash)
  storage_sent removing result_handler entry hash unknown_kind = []

  -- What `mem::replace` leaves of the entry.
  abbrev pub without_owner : ProtectedStorageEntry F → ProtectedStorageEntry F
  without_owner entry = record entry { owner_pub_key_bytes = [] }

  -- The entry that a wrapper holds.
  abbrev pub wrapped_entry : WrappedEntry F → Option (ProtectedStorageEntry F)
  wrapped_entry (protected_storage_entry entry) = some entry
  wrapped_entry (protected_mailbox_storage_entry entry key) = entry

  abbrev pub unwrapped : Option (StorageEntryWrapper F) → Option (ProtectedStorageEntry F)
  unwrapped wrapper = do
    entry_wrapper ← wrapper
    message ← entry_wrapper.message
    wrapped_entry message

module _ {F K : Type 0} (c : Crypto F K) (now : ℕ) where
  -- The part of `route_protected_storage_entry` behind `verify`, for the entry's payload.
  unfoldable pub route_verified :
      Bool
      → ProtectedStorageEntry F
      → ResultHandler F
      → SequencedMessageHash
      → StoragePayload F
      → DataRouter F
      → Outcome F
  route_verified removing entry result_handler hash payload router =
      let (router', deliver) =
        should_deliver_sequenced now hash entry.sequence_number entry.owner_pub_key_bytes payload
          router in
      if deliver
      then (
        router',
        storage_sent removing result_handler (without_owner entry) hash
            (storage_payload_kind entry.storage_payload),
      )
      else (router', [])

  abbrev pub route_hashed :
      Bool
      → ProtectedStorageEntry F
      → ResultHandler F
      → Option SequencedMessageHash
      → Option (StoragePayload F)
      → DataRouter F
      → Outcome F
  route_hashed removing entry result_handler (some hash) (some payload) router =
      route_verified removing entry result_handler hash payload router
  route_hashed removing entry result_handler _ _ router = (router, [])

  unfoldable pub route_protected_storage_entry :
      Bool → Option (ProtectedStorageEntry F) → ResultHandler F → DataRouter F → Outcome F
  route_protected_storage_entry removing none result_handler router = (router, [])
  route_protected_storage_entry removing (some entry) result_handler router =
      route_hashed removing entry result_handler (verify_entry c entry) entry.storage_payload router

  -- Both arms of `route_storage_entry_wrapper` pass `false`.
  unfoldable pub route_storage_entry_wrapper :
      Option (StorageEntryWrapper F) → ResultHandler F → DataRouter F → Outcome F
  route_storage_entry_wrapper wrapper result_handler router =
      route_protected_storage_entry false (unwrapped wrapper) result_handler router

  unfoldable pub route_data : List (StorageEntryWrapper F) → DataRouter F → Outcome F
  route_data [] router = (router, [])
  route_data (w ∷ ws) router =
      let (router', out) = route_storage_entry_wrapper (some w) ignore_command_result router in
      let (router'', more) = route_data ws router' in (router'', out ++ more)

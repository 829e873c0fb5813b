-- ===== src/DataRouter.antt =====
-- src/daemon/data_router.rs: which of the network's data reach the offer book and the statistics.
-- A handler returns the new state and what it sends, in the order of the calls of `send`; `none` is
-- a panic. The feature `statistics` is on, and one reading of the clock serves a whole handler.
pub mod State
pub mod Storage
pub mod Persistable
pub mod Order
pub mod Frame
pub mod Induct
pub mod Keeps
pub mod Rising
pub mod Authentic
pub mod Collect
pub mod Panics
pub mod Delivery
pub mod Synced
mod Tests
use risq.Base.{
  ℕ, true, Option, none, some, List, [], ◌∷◌, ◌++◌, ◌>>=◌, is_some, ◌&&◌, if◌then◌else◌,
}
use risq.Base.Int.{ltb_ℤ}
use risq.Base.HashMap.{get}
use risq.F64.{F64}
use risq.Hash.{SequencedMessageHash, sequenced_eq}
use risq.P2p.Status.{ConnectionId}
use risq.Payload.Types.{
  StorageEntryWrapper, protected_storage_entry, RefreshOfferMessage, PersistableNetworkPayload,
}
use risq.Payload.Message.{
  NetworkMessage, get_data_response, refresh_offer_message, add_data_message, remove_data_message,
  add_persistable_network_payload_message,
}
use risq.Payload.{Crypto, verify_refresh, refresh_hash}
use risq.Convert.{convert_refresh}
use risq.DataRouter.State.{
  DataRouter, SequencedMessageInfo, handle_command_result, Sent, to_offer_book, to_stats_bootstrap,
  Outcome, renewed, set_info, DataRouterDispatch, bootstrap, refresh_offer, add_data, remove_data,
  add_persistable_network_payload,
}
use risq.DataRouter.Storage.{route_protected_storage_entry, route_storage_entry_wrapper, route_data}
use risq.DataRouter.Persistable.{Routed, route_persistable_network_payload, route_payloads}

-- `PayloadExtractor::extract`: `none` gives the message back.
unfoldable pub extract : {F : Type 0} → NetworkMessage F → Option (DataRouterDispatch F)
extract (get_data_response r) = some (bootstrap r.data_set r.persistable_network_payload_items)
extract (add_data_message msg) = some (add_data msg)
extract (remove_data_message msg) = some (remove_data msg)
extract (refresh_offer_message msg) = some (refresh_offer msg)
extract (add_persistable_network_payload_message msg) = some (add_persistable_network_payload msg)
extract _ = none

module _ {F K : Type 0} (c : Crypto F K) (f : F64 F) where
  -- The end of a bootstrap; `none` is the panic of `unwrap`.
  abbrev pub bootstrapped : List (Sent F) → Routed F → Option (Outcome F)
  bootstrapped out (router, none, more) = none
  bootstrapped out (router, some trades, more) =
      some (router, out ++ (more ++ (to_stats_bootstrap trades ∷ [])))

  unfoldable pub route_bootstrap_data :
      ℕ
      → List (StorageEntryWrapper F)
      → List PersistableNetworkPayload
      → DataRouter F
      → Option (Outcome F)
  route_bootstrap_data now data_set payloads router =
      let (router', out) = route_data c now data_set router in
      (do routed ← route_payloads c f payloads (some []) router'; bootstrapped out routed)

  -- The refresh of a known offer, by its hash and its entry of the map.
  unfoldable pub refresh_known :
      ℕ
      → ConnectionId
      → RefreshOfferMessage
      → SequencedMessageHash
      → DataRouter F
      → Option (SequencedMessageInfo F)
      → Option (Outcome F)
  refresh_known now origin msg hash router none = some (router, [])
  refresh_known now origin msg hash router (some info) =
      if ltb_ℤ info.sequence msg.sequence_number
        && is_some (verify_refresh c msg info.owner_pub_key info.original_payload)
      then (do
        command ← convert_refresh c msg
        some (
          set_info hash (renewed now msg.sequence_number info) router,
          to_offer_book command (handle_command_result origin (refresh_offer_message msg)) ∷ [],
        ))
      else some (router, [])

  -- `Handler<Receive<DataRouterDispatch>>`
  unfoldable pub handle :
      ℕ → ConnectionId → DataRouterDispatch F → DataRouter F → Option (Outcome F)
  handle now origin (bootstrap data_set payloads) router =
      route_bootstrap_data now data_set payloads router
  handle now origin (refresh_offer msg) router = do
    hash ← refresh_hash c msg
    refresh_known now origin msg hash router (get hash router.sequenced_message_info)
  handle now origin (add_data msg) router = some (
      route_storage_entry_wrapper c now msg.entry
        (handle_command_result origin (add_data_message msg)) router)
  handle now origin (remove_data msg) router = some (
      route_protected_storage_entry c now true msg.protected_storage_entry
        (handle_command_result origin (remove_data_message msg)) router)
  handle now origin (add_persistable_network_payload msg) router = do
    routed ←
        route_persistable_network_payload c f msg.payload none
          (handle_command_result origin (add_persistable_network_payload_message msg)) router
    some (routed.0, routed.2)

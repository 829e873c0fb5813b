-- ===== src/DataRouter/State.antt =====
-- The state of the `DataRouter` of src/daemon/data_router.rs, what it receives and what it sends.
use risq.Base.{ℕ, Bool, true, false, Option, none, some, List, [], if◌then◌else◌}
use risq.Base.Int.{ℤ, ltb_ℤ}
use risq.Base.HashMap.{HashMap, get, insert}
use risq.Hash.{SequencedMessageHash, PersistentMessageHash, sequenced_eq, persistent_eq}
use risq.OfferBook.{Command, CommandResult, accepted}
use risq.P2p.Status.{ConnectionId}
use risq.Statistics.Trade.{Trade}
use risq.Payload.Types.{
  StoragePayload, StorageEntryWrapper, RefreshOfferMessage, PersistableNetworkPayload,
}
use risq.Payload.Message.{
  NetworkMessage, AddDataMessage, RemoveDataMessage, AddPersistableNetworkPayloadMessage,
}

pub record SequencedMessageInfo (F : Type 0) : Type 0 where
  pub last_delivery : ℕ
  pub sequence : ℤ
  pub owner_pub_key : List ℕ
  pub original_payload : StoragePayload F

-- The addresses of the other actors are not part of the state.
pub record DataRouter (F : Type 0) : Type 0 where
  pub sequenced_message_info : HashMap SequencedMessageHash (SequencedMessageInfo F)
  pub persistent_message_info : List PersistentMessageHash

-- `DataRouter::start`
abbrev pub start : {F : Type 0} → DataRouter F
start = record { sequenced_message_info = []; persistent_message_info = [] }

-- `ignore_command_result`, and `handle_command_result` with what it captures.
pub data ResultHandler (F : Type 0) : Type 0 where
  ignore_command_result : ResultHandler F
  handle_command_result : ConnectionId → NetworkMessage F → ResultHandler F

-- What the closure sends to the broadcaster for a result: `Broadcast(original, Some(origin))`.
unfoldable pub on_result :
    {F : Type 0} → ResultHandler F → CommandResult → Option (NetworkMessage F × ConnectionId)
on_result (handle_command_result origin original) accepted = some (original, origin)
on_result _ _ = none

-- The sends: a message to the offer book and a trade to the cache, each with what handles the
-- result, and the trades of a bootstrap.
pub data Sent (F : Type 0) : Type 0 where
  to_offer_book : Command F → ResultHandler F → Sent F
  to_stats_cache : Trade → ResultHandler F → Sent F
  to_stats_bootstrap : List Trade → Sent F

-- `DataRouterDispatch`
pub data DataRouterDispatch (F : Type 0) : Type 0 where
  bootstrap : List (StorageEntryWrapper F) → List PersistableNetworkPayload → DataRouterDispatch F
  refresh_offer : RefreshOfferMessage → DataRouterDispatch F
  add_data : AddDataMessage F → DataRouterDispatch F
  remove_data : RemoveDataMessage F → DataRouterDispatch F
  add_persistable_network_payload : AddPersistableNetworkPayloadMessage → DataRouterDispatch F

-- The new state and the sends.
abbrev pub Outcome : Type 0 → Type 0
Outcome F = DataRouter F × List (Sent F)

module _ {F : Type 0} where
  abbrev pub renewed : ℕ → ℤ → SequencedMessageInfo F → SequencedMessageInfo F
  renewed now sequence info = record info { sequence = sequence; last_delivery = now }

  abbrev pub set_info : SequencedMessageHash → SequencedMessageInfo F → DataRouter F → DataRouter F
  set_info hash info router = record router {
    sequenced_message_info = insert hash info router.sequenced_message_info;
  }

  abbrev pub new_info : ℕ → ℤ → List ℕ → StoragePayload F → SequencedMessageInfo F
  new_info now sequence owner_pub_key original_payload = record {
    last_delivery = now;
    sequence = sequence;
    owner_pub_key = owner_pub_key;
    original_payload = original_payload;
  }

  unfoldable pub should_deliver_sequenced :
      ℕ → SequencedMessageHash → ℤ → List ℕ → StoragePayload F → DataRouter F → DataRouter F × Bool
  should_deliver_sequenced now hash sequence owner_pub_key original_payload router =
      elim (get hash router.sequenced_message_info) [
        | none ↦ (set_info hash (new_info now sequence owner_pub_key original_payload) router, true)
        | some info ↦
            if ltb_ℤ info.sequence sequence
            then (set_info hash (renewed now sequence info) router, true)
            else (router, false)
      ]

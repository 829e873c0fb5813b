-- ===== src/DataRouter/Persistable.antt =====
-- How src/daemon/data_router.rs and src/bisq/payload/kind.rs route the payloads that persist.
use risq.Base.{Option, none, some, List, [], ◌∷◌, ◌++◌, ◌>>=◌, if◌then◌else◌}
use risq.Base.HashSet.{set_insert}
use risq.F64.{F64}
use risq.Hash.{PersistentMessageHash, sequenced_eq, persistent_eq}
use risq.Statistics.Trade.{Trade}
use risq.Payload.Types.{PersistableMessage, trade_statistics2, PersistableNetworkPayload}
use risq.Payload.{Crypto, bisq_hash}
use risq.Convert.{convert_trade}
use risq.DataRouter.State.{DataRouter, ResultHandler, ignore_command_result, Sent, to_stats_cache}

-- `From<&PersistableNetworkPayload>`; the kinds that the source never makes are left out.
pub data PersistableNetworkPayloadKind : Type 0 where
  trade_statistics2_kind unknown_payload_kind : PersistableNetworkPayloadKind

abbrev pub kind_of_persistable : Option PersistableMessage → PersistableNetworkPayloadKind
kind_of_persistable (some (trade_statistics2 stats)) = trade_statistics2_kind
kind_of_persistable _ = unknown_payload_kind

-- The state, the trades that a bootstrap collects, and the sends.
abbrev pub Routed : Type 0 → Type 0
Routed F = DataRouter F × Option (List Trade) × List (Sent F)

module _ {F : Type 0} where
  -- Where a trade goes that did convert.
  abbrev pub trade_sent :
      Option (List Trade) → ResultHandler F → DataRouter F → Option Trade → Routed F
  trade_sent trades result_handler router none = (router, trades, [])
  trade_sent none result_handler router (some t) =
      (router, none, to_stats_cache t result_handler ∷ [])
  trade_sent (some trades) result_handler router (some t) = (router, some (trades ++ (t ∷ [])), [])

module _ {F K : Type 0} (c : Crypto F K) (f : F64 F) where
  abbrev pub route_kind :
      PersistableNetworkPayload
      → Option (List Trade)
      → ResultHandler F
      → DataRouter F
      → PersistableNetworkPayloadKind
      → Option (Routed F)
  route_kind payload trades result_handler router trade_statistics2_kind = do
    converted ← convert_trade c f payload
    some (trade_sent trades result_handler router converted)
  route_kind payload trades result_handler router unknown_payload_kind = some (router, trades, [])

  -- The part of `route_persistable_network_payload` behind `bisq_hash`.
  unfoldable pub route_persistable :
      PersistableNetworkPayload
      → PersistentMessageHash
      → Option (List Trade)
      → ResultHandler F
      → DataRouter F
      → Option (Routed F)
  route_persistable payload hash trades result_handler router =
      let (known, fresh) = set_insert hash router.persistent_message_info in
      let router' = record router { persistent_message_info = known } in
      if fresh
      then route_kind payload trades result_handler router' (kind_of_persistable payload.message)
      else some (router', trades, [])

  unfoldable pub route_persistable_network_payload :
      Option PersistableNetworkPayload
      → Option (List Trade)
      → ResultHandler F
      → DataRouter F
      → Option (Routed F)
  route_persistable_network_payload none trades result_handler router = some (router, trades, [])
  route_persistable_network_payload (some payload) trades result_handler router = do
    hash ← bisq_hash c payload
    route_persistable payload hash trades result_handler router

  unfoldable pub route_payloads :
      List PersistableNetworkPayload → Option (List Trade) → DataRouter F → Option (Routed F)
  route_payloads [] trades router = some (router, trades, [])
  route_payloads (p ∷ ps) trades router = do
    first ← route_persistable_network_payload (some p) trades ignore_command_result router
    rest ← route_payloads ps first.1 first.0
    some (rest.0, rest.1, first.2 ++ rest.2)

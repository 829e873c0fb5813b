-- ===== src/DataRouter/Panics.antt =====
-- Where the handler of src/daemon/data_router.rs panics.
use risq.Base.{
  ℕ, ◌≡◌, refl, sym, ◌∙◌, Bool, true, false, Option, none, some, [], ◌&&◌, inl, inr, is_some, ◌>>=◌,
  All, any, not, Bool-cases, Option-cases,
}
use risq.Base.Int.{ltb_ℤ}
use risq.Base.HashMap.{get}
use risq.F64.{F64}
use risq.Hash.{SequencedMessageHash, sequenced_eq, persistent_eq}
use risq.Payload.Message.{add_persistable_network_payload_message}
use risq.P2p.Status.{ConnectionId}
use risq.Payload.Types.{RefreshOfferMessage, PersistableNetworkPayload}
use risq.Payload.{Crypto, verify_refresh, refresh_hash, bisq_hash}
use risq.Convert.{convert_refresh}
use risq.DataRouter.State.{
  DataRouter, SequencedMessageInfo, Sent, ResultHandler, ignore_command_result,
  handle_command_result, Outcome, to_offer_book, to_stats_cache, to_stats_bootstrap, set_info,
  should_deliver_sequenced, new_info, renewed, DataRouterDispatch, bootstrap, add_data, remove_data,
  add_persistable_network_payload,
}
use risq.DataRouter.State
use risq.DataRouter.Storage.{route_data}
use risq.DataRouter.Persistable.{Routed, route_persistable_network_payload, route_payloads}
use risq.DataRouter.{handle, route_bootstrap_data, refresh_known}
use risq.Convert.Panics.{HasPrice}
use risq.DataRouter.Collect.{
  is_some-bind, unhashed, payload-is_some, boots-is_some, payloads-collected,
}

not-not : (b : Bool) → not (not b) ≡ b
not-not true = refl
not-not false = refl

module _ {F K : Type 0} (c : Crypto F K) where
  abbrev unhashed_option : Option PersistableNetworkPayload → Bool
  unhashed_option none = false
  unhashed_option (some payload) = unhashed c payload

  -- The messages that the router does not survive.
  abbrev pub malformed : DataRouterDispatch F → Bool
  malformed (bootstrap data_set payloads) = any (unhashed c) payloads
  malformed (State.refresh_offer msg) = not (is_some (refresh_hash c msg))
  malformed (add_data msg) = false
  malformed (remove_data msg) = false
  malformed (add_persistable_network_payload msg) = unhashed_option msg.payload

abbrev OptionHasPrice : Option PersistableNetworkPayload → Type 0
OptionHasPrice none = Unit
OptionHasPrice (some payload) = HasPrice payload.message

-- The prices of the trades in a message are of type `i64`, as `prost` decodes them.
abbrev pub HasPrices : {F : Type 0} → DataRouterDispatch F → Type 0
HasPrices (bootstrap data_set payloads) = All (λ payload. HasPrice payload.message) payloads
HasPrices (add_persistable_network_payload msg) = OptionHasPrice msg.payload
HasPrices _ = Unit

module _ {F K : Type 0} (c : Crypto F K) (f : F64 F) where
  refresh-is_some :
      (now : ℕ) (origin : ConnectionId) (msg : RefreshOfferMessage) (hash : SequencedMessageHash)
      (router : DataRouter F) (info : Option (SequencedMessageInfo F))
      → refresh_hash c msg ≡ some hash
      → is_some (refresh_known c f now origin msg hash router info) ≡ true
  unfolding refresh_known convert_refresh
  refresh-is_some now origin msg hash router none found = refl
  refresh-is_some now origin msg hash router (some info) found =
      let newer = ltb_ℤ info.sequence msg.sequence_number in
      let verified = is_some (verify_refresh c msg info.owner_pub_key info.original_payload) in
      elim (Bool-cases (newer && verified)) [
        | inl pass ↦ rw (pass, found, refresh_known) refl
        | inr fail ↦ rw (fail, refresh_known) refl
      ]

  abbrev outcome : Option (Routed F) → Option (Outcome F)
  outcome routed = routed >>= λ r. some (r.0, r.2)

  -- The router panics on just the messages that refresh an offer by a hash of the wrong length, or
  -- that hold a persistable payload without a message or with a hash of the wrong length, where the
  -- prices of the trades in the message are of type `i64`; whatever its state.
  pub handle-is_some :
      (now : ℕ) (origin : ConnectionId) (dispatch : DataRouterDispatch F) (router : DataRouter F)
      → HasPrices dispatch
      → is_some (handle c f now origin dispatch router) ≡ not (malformed c dispatch)
  unfolding handle route_bootstrap_data route_persistable_network_payload
  handle-is_some now origin (bootstrap data_set payloads) router h =
      let first = route_data c now data_set router in
      boots-is_some c f first.1 (route_payloads c f payloads (some []) first.0)
      ∙ payloads-collected c f payloads (some []) first.0 refl h
  handle-is_some now origin (State.refresh_offer msg) router h =
      elim (Option-cases (refresh_hash c msg)) [
        | inl e ↦ rw e refl
        | inr (hash, e) ↦
            rw e (
              refresh-is_some now origin msg hash router (get hash router.sequenced_message_info) e)
      ]
  handle-is_some now origin (add_data msg) router h = refl
  handle-is_some now origin (remove_data msg) router h = refl
  handle-is_some now origin (add_persistable_network_payload msg) router h =
      persistable (handle_command_result origin (add_persistable_network_payload_message msg))
        msg.payload h
    where
      persistable :
          (handler : ResultHandler F) (payload : Option PersistableNetworkPayload)
          → OptionHasPrice payload
          → is_some (outcome (route_persistable_network_payload c f payload none handler router))
            ≡ not (unhashed_option c payload)
      persistable handler none h = refl
      persistable handler (some payload) h =
          is_some-bind (route_persistable_network_payload c f (some payload) none handler router) _
            (λ r. refl)
          ∙ payload-is_some c f payload none handler router h
          ∙ sym (not-not (is_some (bisq_hash c payload)))

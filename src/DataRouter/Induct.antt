-- ===== src/DataRouter/Induct.antt =====
-- A principle of induction for the handler of src/daemon/data_router.rs: what holds of a handler
-- that sends nothing, of sends to the statistics, of sends in a row, of a verified entry and of a
-- verified refresh holds of the whole handler.
use risq.Base.{
  ℕ, ◌≡◌, refl, true, false, Option, none, some, List, [], ◌∷◌, ◌++◌, ◌&&◌, arith, inl, inr,
  Bool-cases, and_parts, >>=-eq-some, is_some, is_some-eq, some-injective, subst,
}
use risq.Base.Int.{ltb_ℤ}
use risq.Base.HashMap.{get}
use risq.Base.HashSet.{set_insert}
use risq.F64.{F64}
use risq.Hash.{SequencedMessageHash, PersistentMessageHash, sequenced_eq, persistent_eq}
use risq.Payload.Message.{
  refresh_offer_message, add_data_message, remove_data_message,
  add_persistable_network_payload_message,
}
use risq.OfferBook
use risq.P2p.Status.{ConnectionId}
use risq.OfferBook.{Command, add_offer, remove_offer, refresh_offer, check_ttl}
use risq.Payload.Types.{RefreshOfferMessage, PersistableNetworkPayload}
use risq.Payload.{Crypto, verify_refresh, refresh_hash, bisq_hash}
use risq.Convert.{convert_refresh, convert_trade}
use risq.Statistics.Trade.{Trade}
use risq.DataRouter.State.{
  DataRouter, SequencedMessageInfo, Sent, ResultHandler, ignore_command_result,
  handle_command_result, Outcome, to_offer_book, to_stats_cache, to_stats_bootstrap, set_info,
  should_deliver_sequenced, new_info, renewed, DataRouterDispatch, bootstrap, add_data, remove_data,
  add_persistable_network_payload,
}
use risq.DataRouter.State
use risq.DataRouter.Storage.{route_storage_entry_wrapper, route_data, unwrapped}
use risq.DataRouter.Persistable.{
  Routed, PersistableNetworkPayloadKind, trade_statistics2_kind, unknown_payload_kind,
  kind_of_persistable, trade_sent, route_kind, route_persistable, route_persistable_network_payload,
  route_payloads,
}
use risq.DataRouter.{handle, route_bootstrap_data, bootstrapped, refresh_known}
use risq.DataRouter.Frame.{entries, IsFrame, same_router, OnEntry, entry_induct, data_induct}

module _ {F K : Type 0} (c : Crypto F K) (f : F64 F) (P : DataRouter F → Outcome F → Type 0)
    (frame : IsFrame P) where
  abbrev Holds : DataRouter F → Routed F → Type 0
  Holds router (router', trades, out) = P router (router', out)

  trade_induct :
      (trades : Option (List Trade)) (handler : ResultHandler F) (router : DataRouter F)
      (ids : List PersistentMessageHash) (t : Option Trade)
      → Holds router (trade_sent trades handler (record router { persistent_message_info = ids }) t)
  trade_induct trades handler router ids none = frame.same router ids
  trade_induct none handler router ids (some t) = frame.stats router ids t handler
  trade_induct (some trades) handler router ids (some t) = frame.same router ids

  kind_induct :
      (payload : PersistableNetworkPayload) (trades : Option (List Trade))
      (handler : ResultHandler F) (router : DataRouter F) (ids : List PersistentMessageHash)
      (kind : PersistableNetworkPayloadKind) {routed : Routed F}
      → route_kind c f payload trades handler (record router { persistent_message_info = ids }) kind
        ≡ some routed
      → Holds router routed
  kind_induct payload trades handler router ids trade_statistics2_kind h =
      let (t, converted, e) = >>=-eq-some (convert_trade c f payload) _ h in
      subst (Holds router) (some-injective e) (trade_induct trades handler router ids t)
  kind_induct payload trades handler router ids unknown_payload_kind h =
      subst (Holds router) (some-injective h) (frame.same router ids)

  persistable_induct :
      (payload : PersistableNetworkPayload) (hash : PersistentMessageHash)
      (trades : Option (List Trade)) (handler : ResultHandler F) (router : DataRouter F)
      {routed : Routed F}
      → route_persistable c f payload hash trades handler router ≡ some routed
      → Holds router routed
  unfolding route_persistable
  persistable_induct payload hash trades handler router h =
      let (ids, fresh) = set_insert hash router.persistent_message_info in
      elim (Bool-cases fresh) [
        | inl new ↦
            kind_induct payload trades handler router ids (kind_of_persistable payload.message)
              (rw new at h)
        | inr old ↦ subst (Holds router) (some-injective (rw old at h)) (frame.same router ids)
      ]

  payload_induct :
      (payload : Option PersistableNetworkPayload) (trades : Option (List Trade))
      (handler : ResultHandler F) (router : DataRouter F) {routed : Routed F}
      → route_persistable_network_payload c f payload trades handler router ≡ some routed
      → Holds router routed
  unfolding route_persistable_network_payload
  payload_induct none trades handler router h =
      subst (Holds router) (some-injective h) (same_router c P frame router)
  payload_induct (some payload) trades handler router h =
      let (hash, found, h1) = >>=-eq-some (bisq_hash c payload) _ h in
      persistable_induct payload hash trades handler router h1

  payloads_induct :
      (ps : List PersistableNetworkPayload) (trades : Option (List Trade)) (router : DataRouter F)
      {routed : Routed F}
      → route_payloads c f ps trades router ≡ some routed
      → Holds router routed
  unfolding route_payloads
  payloads_induct [] trades router h =
      subst (Holds router) (some-injective h) (same_router c P frame router)
  payloads_induct (p ∷ ps) trades router h =
      let (first, h1, h2) =
        >>=-eq-some
          (route_persistable_network_payload c f (some p) trades ignore_command_result router) _
          h in
      let (rest, h3, h4) = >>=-eq-some (route_payloads c f ps first.1 first.0) _ h2 in
      subst (Holds router) (some-injective h4) (
        frame.append router first.0 rest.0 first.2 rest.2
          (payload_induct (some p) trades ignore_command_result router h1)
          (payloads_induct ps first.1 first.0 h3))

  boot_induct :
      (r r' : DataRouter F) (out : List (Sent F)) (routed : Routed F) {o : Outcome F}
      → P r (r', out)
      → Holds r' routed
      → bootstrapped c f out routed ≡ some o
      → P r o
  boot_induct r r' out (router, none, more) p q e = ground arith
  boot_induct r r' out (router, some trades, more) p q e = subst (P r) (some-injective e) (
      frame.append r r' router out (more ++ (to_stats_bootstrap trades ∷ [])) p (
        frame.append r' router router more (to_stats_bootstrap trades ∷ []) q
          (frame.boot router trades)))

  -- What is asked of a refresh that is newer than what the router knows, and verified.
  abbrev pub OnRefresh : ℕ → ConnectionId → DataRouterDispatch F → Type 0
  OnRefresh now origin dispatch =
      (msg : RefreshOfferMessage) (hash : SequencedMessageHash) (router : DataRouter F)
      (info : SequencedMessageInfo F)
      → dispatch ≡ State.refresh_offer msg
      → get hash router.sequenced_message_info ≡ some info
      → ltb_ℤ info.sequence msg.sequence_number ≡ true
      → verify_refresh c msg info.owner_pub_key info.original_payload ≡ some tt
      → P router (
        set_info hash (renewed now msg.sequence_number info) router,
        to_offer_book (OfferBook.refresh_offer hash msg.sequence_number)
              (handle_command_result origin (refresh_offer_message msg))
            ∷ [],
      )

  refresh_induct :
      (now : ℕ) (origin : ConnectionId) (msg : RefreshOfferMessage) (hash : SequencedMessageHash)
      (router : DataRouter F) (info : Option (SequencedMessageInfo F)) {o : Outcome F}
      → OnRefresh now origin (State.refresh_offer msg)
      → refresh_hash c msg ≡ some hash
      → get hash router.sequenced_message_info ≡ info
      → refresh_known c f now origin msg hash router info ≡ some o
      → P router o
  unfolding refresh_known convert_refresh
  refresh_induct now origin msg hash router none on_refresh found at e =
      subst (P router) (some-injective e) (same_router c P frame router)
  refresh_induct now origin msg hash router (some info) on_refresh found at e =
      let newer = ltb_ℤ info.sequence msg.sequence_number in
      let verified = is_some (verify_refresh c msg info.owner_pub_key info.original_payload) in
      elim (Bool-cases (newer && verified)) [
        | inl pass ↦
            let (is_newer, is_verified) = and_parts newer verified pass in
            subst (P router) (some-injective (rw (pass, found) at e)) (
              on_refresh msg hash router info refl at is_newer (
                is_some-eq (verify_refresh c msg info.owner_pub_key info.original_payload)
                  is_verified))
        | inr fail ↦ subst (P router) (some-injective (rw fail at e)) (same_router c P frame router)
      ]

  -- The principle for the whole handler, where it does not panic.
  pub handle_induct :
      (now : ℕ) (origin : ConnectionId) (dispatch : DataRouterDispatch F) (router : DataRouter F)
      {o : Outcome F}
      → OnEntry c P frame now (entries dispatch)
      → OnRefresh now origin dispatch
      → handle c f now origin dispatch router ≡ some o
      → P router o
  unfolding handle route_bootstrap_data route_storage_entry_wrapper
  handle_induct now origin (bootstrap data_set payloads) router on_entry on_refresh h =
      let first = route_data c now data_set router in
      let (routed, h1, h2) = >>=-eq-some (route_payloads c f payloads (some []) first.0) _ h in
      boot_induct router first.0 first.1 routed (data_induct c P frame now data_set router on_entry)
        (payloads_induct payloads (some []) first.0 h1) h2
  handle_induct now origin (State.refresh_offer msg) router on_entry on_refresh h =
      let (hash, found, h1) = >>=-eq-some (refresh_hash c msg) _ h in
      refresh_induct now origin msg hash router (get hash router.sequenced_message_info) on_refresh
        found refl h1
  handle_induct now origin (add_data msg) router on_entry on_refresh h =
      subst (P router) (some-injective h) (
        entry_induct c P frame now false (unwrapped msg.entry)
          (handle_command_result origin (add_data_message msg)) router on_entry)
  handle_induct now origin (remove_data msg) router on_entry on_refresh h =
      subst (P router) (some-injective h) (
        entry_induct c P frame now true msg.protected_storage_entry
          (handle_command_result origin (remove_data_message msg)) router on_entry)
  handle_induct now origin (add_persistable_network_payload msg) router on_entry on_refresh h =
      let handler = handle_command_result origin (add_persistable_network_payload_message msg) in
      let (routed, h1, h2) =
        >>=-eq-some (route_persistable_network_payload c f msg.payload none handler router) _ h in
      subst (P router) (some-injective h2) (payload_induct msg.payload none handler router h1)

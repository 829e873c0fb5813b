-- ===== src/DataRouter/Collect.antt =====
-- The payloads that persist: where src/daemon/data_router.rs panics on them.
use risq.Base.{
  ◌≡◌, refl, sym, ap, ◌∙◌, Bool, true, Option, none, some, List, [], ◌∷◌, ◌++◌, arith, inl, inr,
  is_some, ◌>>=◌, All, any, not, Bool-cases, Option-cases, >>=-eq-some, some-injective, subst,
}
use risq.Base.HashSet.{set_insert}
use risq.F64.{F64}
use risq.Hash.{PersistentMessageHash, sequenced_eq, persistent_eq}
use risq.Payload.Types.{PersistableNetworkPayload}
use risq.Payload.{Crypto, bisq_hash}
use risq.Convert.{convert_trade}
use risq.Statistics.Trade.{Trade}
use risq.DataRouter.State.{DataRouter, Sent, ResultHandler, ignore_command_result}
use risq.DataRouter.Persistable.{
  Routed, PersistableNetworkPayloadKind, trade_statistics2_kind, unknown_payload_kind,
  kind_of_persistable, trade_sent, route_kind, route_persistable, route_persistable_network_payload,
  route_payloads,
}
use risq.DataRouter.{bootstrapped}
use risq.Convert.Panics.{HasPrice, convert_trade-is_some}

-- A bind panics just where one of its parts does.
pub is_some-bind :
    {A B : Type 0} (o : Option A) (k : A → Option B)
    → ((a : A) → is_some (k a) ≡ true)
    → is_some (o >>= k) ≡ is_some o
is_some-bind none k h = refl
is_some-bind (some a) k h = h a

module _ {F K : Type 0} (c : Crypto F K) where
  -- The payload has no hash: no message, or one with a hash of the wrong length.
  abbrev pub unhashed : PersistableNetworkPayload → Bool
  unhashed payload = not (is_some (bisq_hash c payload))

module _ {F K : Type 0} (c : Crypto F K) (f : F64 F) where
  kind-is_some :
      (payload : PersistableNetworkPayload) (trades : Option (List Trade))
      (handler : ResultHandler F) (router : DataRouter F) (kind : PersistableNetworkPayloadKind)
      → HasPrice payload.message
      → is_some (bisq_hash c payload) ≡ true
      → is_some (route_kind c f payload trades handler router kind) ≡ true
  kind-is_some payload trades handler router trade_statistics2_kind h hashed =
      is_some-bind (convert_trade c f payload) _ (λ t. refl)
      ∙ convert_trade-is_some c f payload h
      ∙ hashed
  kind-is_some payload trades handler router unknown_payload_kind h hashed = refl

  persistable-is_some :
      (payload : PersistableNetworkPayload) (hash : PersistentMessageHash)
      (trades : Option (List Trade)) (handler : ResultHandler F) (router : DataRouter F)
      → HasPrice payload.message
      → is_some (bisq_hash c payload) ≡ true
      → is_some (route_persistable c f payload hash trades handler router) ≡ true
  unfolding route_persistable
  persistable-is_some payload hash trades handler router h hashed =
      let (ids, fresh) = set_insert hash router.persistent_message_info in
      elim (Bool-cases fresh) [
        | inl new ↦
            rw (new, route_persistable)
              (kind-is_some payload trades handler (record router { persistent_message_info = ids })
                (kind_of_persistable payload.message) h hashed)
        | inr old ↦ rw (old, route_persistable) refl
      ]

  pub payload-is_some :
      (payload : PersistableNetworkPayload) (trades : Option (List Trade))
      (handler : ResultHandler F) (router : DataRouter F)
      → HasPrice payload.message
      → is_some (route_persistable_network_payload c f (some payload) trades handler router)
        ≡ is_some (bisq_hash c payload)
  unfolding route_persistable_network_payload
  payload-is_some payload trades handler router h = elim (Option-cases (bisq_hash c payload)) [
    | inl e ↦ rw e refl
    | inr (hash, e) ↦ rw e (persistable-is_some payload hash trades handler router h (ap is_some e))
  ]

  -- A bootstrap goes on collecting.
  trade-collects :
      (ts : List Trade) (handler : ResultHandler F) (router : DataRouter F) (t : Option Trade)
      → is_some (trade_sent (some ts) handler router t).1 ≡ true
  trade-collects ts handler router none = refl
  trade-collects ts handler router (some t) = refl

  kind-collects :
      (payload : PersistableNetworkPayload) (ts : List Trade) (handler : ResultHandler F)
      (router : DataRouter F) (kind : PersistableNetworkPayloadKind) {routed : Routed F}
      → route_kind c f payload (some ts) handler router kind ≡ some routed
      → is_some routed.1 ≡ true
  kind-collects payload ts handler router trade_statistics2_kind h =
      let (t, converted, e) = >>=-eq-some (convert_trade c f payload) _ h in
      subst (λ (r : Routed F). is_some r.1 ≡ true) (some-injective e)
        (trade-collects ts handler router t)
  kind-collects payload ts handler router unknown_payload_kind h =
      subst (λ (r : Routed F). is_some r.1 ≡ true) (some-injective h) refl

  payload-collects :
      (payload : PersistableNetworkPayload) (ts : List Trade) (handler : ResultHandler F)
      (router : DataRouter F) {routed : Routed F}
      → route_persistable_network_payload c f (some payload) (some ts) handler router ≡ some routed
      → is_some routed.1 ≡ true
  unfolding route_persistable_network_payload route_persistable
  payload-collects payload ts handler router h =
      let (hash, found, e) = >>=-eq-some (bisq_hash c payload) _ h in
      let (ids, fresh) = set_insert hash router.persistent_message_info in
      elim (Bool-cases fresh) [
        | inl new ↦
            kind-collects payload ts handler (record router { persistent_message_info = ids })
              (kind_of_persistable payload.message) (rw new at e)
        | inr old ↦ subst (λ (r : Routed F). is_some r.1 ≡ true) (some-injective (rw old at e)) refl
      ]

  -- Whether a bootstrap has come to a list of trades.
  abbrev pub collected : Option (Routed F) → Bool
  collected routed = is_some (routed >>= λ r. r.1)

  pub boots-is_some :
      (out : List (Sent F)) (routed : Option (Routed F))
      → is_some (routed >>= bootstrapped c f out) ≡ collected routed
  boots-is_some out none = refl
  boots-is_some out (some (router, none, more)) = refl
  boots-is_some out (some (router, some ts, more)) = refl

  collected-append :
      (out : List (Sent F)) (routed : Option (Routed F))
      → collected (routed >>= λ r. some (r.0, r.1, out ++ r.2)) ≡ collected routed
  collected-append out none = refl
  collected-append out (some routed) = refl

  pub payloads-collected :
      (ps : List PersistableNetworkPayload) (trades : Option (List Trade)) (router : DataRouter F)
      → is_some trades ≡ true
      → All (λ payload. HasPrice payload.message) ps
      → collected (route_payloads c f ps trades router) ≡ not (any (unhashed c) ps)
  unfolding route_payloads
  payloads-collected [] trades router collects h = collects
  payloads-collected (p ∷ ps) none router collects h = ground arith
  payloads-collected (p ∷ ps) (some ts) router collects (first, rest) =
      let routed =
        route_persistable_network_payload c f (some p) (some ts) ignore_command_result router in
      let hashed = payload-is_some p (some ts) ignore_command_result router first in
      elim (Option-cases routed) [
        | inl panics ↦ rw (panics, sym hashed ∙ ap is_some panics) refl
        | inr (next, goes) ↦
            rw (goes, sym hashed ∙ ap is_some goes)
              (collected-append next.2 (route_payloads c f ps next.1 next.0)
                ∙ payloads-collected ps next.1 next.0
                    (payload-collects p ts ignore_command_result router goes) rest)
      ]

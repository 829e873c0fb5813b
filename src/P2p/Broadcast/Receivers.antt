-- ===== src/P2p/Broadcast/Receivers.antt =====
-- Whom src/p2p/broadcast.rs sends to.
use risq.Base.{
  ◌≡◌, refl, sym, ap, Bool, not, ◌&&◌, Option, none, some, [], ◌∷◌, nat_eq, if◌then◌else◌,
  Bool-cases, inl, inr, subst,
}
use risq.Base.HashMap.{
  HashMap, get, bind, filter_map, Distinct, get-filter_map, filter_map-Distinct,
}
use risq.P2p.Status.{ConnectionId}
use risq.P2p.Peers.State.{Address}
use risq.P2p.Broadcast.{Broadcaster, retain, handle_broadcast, is_excluded}

module _ (connected : Address → Bool) (exclude : Option ConnectionId) where
  abbrev pub stays : ConnectionId → Address → Option Address
  stays id conn = if connected conn then some conn else none

  abbrev pub receives : ConnectionId → Address → Option Address
  receives id conn = if connected conn && not (is_excluded exclude id) then some conn else none

  retain-eq-filter_map :
      (m : HashMap ConnectionId Address)
      → (retain connected exclude m).0 ≡ filter_map stays m
        × ((retain connected exclude m).1 ≡ filter_map receives m)
  unfolding retain filter_map
  retain-eq-filter_map [] = (refl, refl)
  retain-eq-filter_map ((id, conn) ∷ m) =
      let (kept, sent) = retain-eq-filter_map m in
      elim (Bool-cases (connected conn)) [
        | inl on ↦ elim (Bool-cases (is_excluded exclude id)) [
          | inl out ↦ (rw (on, retain) (ap (λ r. (id, conn) ∷ r) kept), rw (on, out, retain) sent)
          | inr into ↦ (
            rw (on, retain) (ap (λ r. (id, conn) ∷ r) kept),
            rw (on, into, retain) (ap (λ r. (id, conn) ∷ r) sent),
          )
        ]
        | inr off ↦ (rw (off, retain) kept, rw (off, retain) sent)
      ]

  -- Where no connection is known twice, a message is sent just to the connections that are known,
  -- running and not excluded, each at the address that is known for it and once, and just the
  -- connections that are running stay known, none of them twice.
  pub broadcast_reaches :
      (b : Broadcaster) (id : ConnectionId)
      → Distinct b.connections
      → (get id (handle_broadcast connected exclude b).1
          ≡ bind (get id b.connections) (receives id))
        × Distinct (handle_broadcast connected exclude b).1
        × (get id (handle_broadcast connected exclude b).0.connections
            ≡ bind (get id b.connections) (stays id))
        × Distinct (handle_broadcast connected exclude b).0.connections
  unfolding handle_broadcast
  broadcast_reaches b id d =
      let (kept, sent) = retain-eq-filter_map b.connections in
      (
        rw sent (get-filter_map receives id b.connections d),
        subst Distinct (sym sent) (filter_map-Distinct receives b.connections d),
        rw kept (get-filter_map stays id b.connections d),
        subst Distinct (sym kept) (filter_map-Distinct stays b.connections d),
      )

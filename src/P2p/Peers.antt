-- ===== src/P2p/Peers.antt =====
-- src/p2p/peers.rs: the actor that keeps the connections. What it handles, the timer and the
-- futures that come back to it are its steps. `none` is a panic, which ends the actor.
pub mod State
mod Connections
mod Report
pub mod Invariant
pub mod Panics
pub mod Consolidate
mod Tests
unfoldable pub use State.*
unfoldable pub use Connections.*
unfoldable pub use Report.*
use risq.Base.{
  ℕ, zero, suc, ◌+◌, ◌-◌, ◌*◌, ◌/◌, ◌%◌, ◌^◌, Bool, true, false, not, ◌&&◌, ◌||◌, Option, none,
  some, List, [], ◌∷◌, map, filter, length, ltb, if◌then◌else◌, nat_eq, ◌==◌,
}
use risq.Base.Int.{ℤ, pos, negsuc}
use risq.Base.HashMap.{HashMap, get, insert, remove, contains_key}
use risq.Capability.{
  Capability, try_from, as_i32, local_capabilities, CloseConnectionReason,
  too_many_connections_open, unknown_peer_address, close_requested_by_peer,
}
use risq.Offer.{from_millis}
use risq.P2p.Status.{
  ConnectionId, NodeAddress, address_eq, Status, connection_added, connection_removed,
  connection_identified, connection_alive, or_else,
}

-- What the actor handles: messages, its timer, and the futures that come back.
pub data Event : Type 0 where
  seed_connection : NodeAddress → ConnectionId → Address → Event
  incoming_connection : ConnectionId → Address → Event
  opened : NodeAddress → ConnectionId → Address → Event
  get_peers_request : ConnectionId → Option NodeAddress → List ℤ → List Peer → Event
  close_connection : ConnectionId → Event
  server_started : NodeAddress → Event
  timer : Event
  alive_times : List (ConnectionId × ℕ) → Event
  consolidated : Event
  request_peers : ConnectionId → Event
  get_peers_response : ConnectionId → List ℤ → List Peer → Event
  reply : Address → ConnectionId → ℤ → Event

-- `resolves` is the answer of the resolver to the addresses that a step opens without a proxy.
unfoldable pub step : ℕ → (Address → Bool) → (NodeAddress → Bool) → Event → Peers → Option Peers
step now connected resolves (seed_connection addr id conn) peers = some (
    consolidate connected (
      add_connection now id conn (some addr)
        (record peers { sent = set_dispatcher conn ∷ peers.sent })))
step now connected resolves (incoming_connection id conn) peers =
    some (add_connection now id conn none peers)
step now connected resolves (opened addr id conn) peers =
    some (request_peers_from id (add_connection now id conn (some addr) peers))
step now connected resolves (get_peers_request id sender capabilities reported) peers =
    handle_get_peers now id sender capabilities reported peers
step now connected resolves (close_connection id) peers =
    some (drop_connection connected id close_requested_by_peer peers)
step now connected resolves (server_started addr) peers =
    some (record peers { local_addr = some addr })
step now connected resolves timer peers = some (consolidate connected peers)
step now connected resolves (alive_times times) peers = update_alive_times times peers
step now connected resolves consolidated peers = do_consolidate connected resolves peers
step now connected resolves (request_peers id) peers = some (request_peers_from id peers)
step now connected resolves (get_peers_response id capabilities reported) peers =
    some (peers_received now id capabilities reported peers)
step now connected resolves (reply conn id nonce) peers = some (respond conn id nonce peers)

unfoldable pub run :
    List (ℕ × (Address → Bool) × (NodeAddress → Bool) × Event) → Peers → Option Peers
run [] peers = some peers
run ((now, connected, resolves, e) ∷ rest) peers = elim (step now connected resolves e peers) [
  | none ↦ none
  | some next ↦ run rest next
]

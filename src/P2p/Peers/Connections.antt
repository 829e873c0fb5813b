-- ===== src/P2p/Peers/Connections.antt =====
-- How src/p2p/peers.rs adds, drops and sorts out connections. `none` is a panic.
use risq.Base.{
  ℕ, zero, suc, ◌+◌, ◌-◌, ◌%◌, ◌^◌, Bool, false, not, ◌||◌, Option, none, some, List, [], ◌∷◌, map,
  filter, length, ltb, all, if◌then◌else◌, nat_eq, ◌==◌,
}
use risq.Base.HashMap.{HashMap, get, insert, remove, contains_key}
use risq.Capability.{CloseConnectionReason, too_many_connections_open, unknown_peer_address}
use risq.P2p.Status.{
  ConnectionId, NodeAddress, address_eq, connection_added, connection_removed, connection_alive,
}
use risq.P2p.Peers.State.{
  max_connections, min_connections, Address, Sent, tell_keep_alive, tell_broadcaster, shutdown,
  open_to, Peers, update_peer_info,
}

abbrev identify : ℕ → ConnectionId → Option NodeAddress → Peers → Peers
identify now id none peers = peers
identify now id (some addr) peers =
    let known = update_peer_info addr now none none peers in
    record known { identified_connections = insert id addr known.identified_connections }

unfoldable pub add_connection : ℕ → ConnectionId → Address → Option NodeAddress → Peers → Peers
add_connection now id conn addr peers =
    let added = record peers {
      connections = insert id conn peers.connections;
      status = connection_added now id addr peers.status;
    } in
    let known = identify now id addr added in
    record known { sent = tell_broadcaster id conn ∷ tell_keep_alive id conn ∷ known.sent }

-- `connected` tells which actors are running when a step reads it.
abbrev shut : (Address → Bool) → Option Address → CloseConnectionReason → List Sent → List Sent
shut connected none reason sent = sent
shut connected (some conn) reason sent =
    if connected conn then shutdown conn reason ∷ sent else sent

unfoldable pub drop_connection :
    (Address → Bool) → ConnectionId → CloseConnectionReason → Peers → Peers
drop_connection connected id reason peers = record peers {
  status = connection_removed id peers.status;
  identified_connections = remove id peers.identified_connections;
  connections = remove id peers.connections;
  sent = shut connected (get id peers.connections) reason peers.sent;
}

-- The ids that `consolidate_connections` collects.
unfoldable pub remove_ids :
    (Address → Bool)
    → HashMap ConnectionId NodeAddress
    → HashMap ConnectionId Address
    → List ConnectionId
remove_ids connected identified [] = []
remove_ids connected identified ((id, conn) ∷ rest) =
    let ids = remove_ids connected identified rest in
    if not (contains_key id identified) || not (connected conn) then id ∷ ids else ids

-- The closure over `remove_ids`.
unfoldable pub remove_one : (Address → Bool) → ConnectionId → Peers → Peers
remove_one connected id peers =
    if contains_key id peers.identified_connections
    then record peers {
      identified_connections = remove id peers.identified_connections;
      connections = remove id peers.connections;
      status = connection_removed id peers.status;
    }
    else drop_connection connected id unknown_peer_address peers

unfoldable pub remove_each : (Address → Bool) → List ConnectionId → Peers → Peers
remove_each connected [] peers = peers
remove_each connected (id ∷ ids) peers = remove_each connected ids (remove_one connected id peers)

-- `consolidate_connections` up to the question to the keep-alive actor.
unfoldable pub consolidate : (Address → Bool) → Peers → Peers
consolidate connected peers =
    remove_each connected (remove_ids connected peers.identified_connections peers.connections)
      peers

abbrev pub alive_one : ConnectionId → ℕ → Option NodeAddress → Peers → Option Peers
alive_one id at none peers = some peers
alive_one id at (some addr) peers = elim (connection_alive id at peers.status) [
  | none ↦ none
  | some status ↦ some (update_peer_info addr at none none (record peers { status = status }))
]

-- `update_alive_times`, with the times that the keep-alive actor gave.
unfoldable pub update_alive_times : List (ConnectionId × ℕ) → Peers → Option Peers
update_alive_times [] peers = some peers
update_alive_times ((id, at) ∷ times) peers =
    elim (alive_one id at (get id peers.identified_connections) peers) [
      | none ↦ none
      | some next ↦ update_alive_times times next
    ]

-- `new_connection_candidates`: the keys of `peer_infos` but for the identified ones.
unfoldable pub is_identified : NodeAddress → HashMap ConnectionId NodeAddress → Bool
is_identified addr [] = false
is_identified addr ((id, a) ∷ rest) = a == addr || is_identified addr rest

unfoldable pub new_connection_candidates : Peers → List NodeAddress
new_connection_candidates peers =
    filter (λ addr. not (is_identified addr peers.identified_connections))
      (map (λ p. p.0) peers.peer_infos)

abbrev pub take {ℓ} : {A : Type ℓ} → ℕ → List A → List A
take n [] = []
take zero (x ∷ xs) = []
take (suc n) (x ∷ xs) = x ∷ take n xs

abbrev open_all : List NodeAddress → List Sent → List Sent
open_all [] sent = sent
open_all (addr ∷ addrs) sent = open_all addrs (open_to addr ∷ sent)

unfoldable pub drop_each : (Address → Bool) → List ConnectionId → Peers → Peers
drop_each connected [] peers = peers
drop_each connected (id ∷ ids) peers =
    drop_each connected ids (drop_connection connected id too_many_connections_open peers)

-- The candidates that `do_consolidate_connections` takes; the subtraction of `usize` wraps around,
-- as in a release build.
abbrev pub to_open : Peers → List NodeAddress
to_open peers =
    take ((2 ^ 64 + max_connections - length peers.connections) % 2 ^ 64)
      (new_connection_candidates peers)

-- `do_consolidate_connections`. `resolves` tells whether `Connection::open` of
-- src/p2p/connection.rs finds an address to connect to: without a proxy it asks the resolver at
-- once and unwraps the answer, with a proxy there is nothing to resolve.
unfoldable pub do_consolidate : (Address → Bool) → (NodeAddress → Bool) → Peers → Option Peers
do_consolidate connected resolves peers =
    let open_now : ℕ = length peers.connections in
    if ltb (length peers.identified_connections) min_connections
    then (if all resolves (to_open peers)
        then some (record peers { sent = open_all (to_open peers) peers.sent })
        else none)
    else if ltb max_connections open_now
    then some (
        drop_each connected (take (open_now - max_connections) (map (λ p. p.0) peers.connections))
          peers)
    else some peers

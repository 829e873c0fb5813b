-- ===== src/P2p/Peers/Report.antt =====
-- The questions for peers and the answers to them in src/p2p/peers.rs. `none` is a panic.
use risq.Base.{
  ℕ, ◌-◌, ◌/◌, ◌%◌, ◌^◌, Option, none, some, List, [], ◌∷◌, map, ltb, if◌then◌else◌, nat_eq, ◌==◌,
}
use risq.Base.Int.{ℤ, pos, negsuc}
use risq.Base.HashMap.{HashMap, get, insert}
use risq.Capability.{Capability, as_i32}
use risq.P2p.Status.{ConnectionId, NodeAddress, address_eq, connection_identified, or_else}
use risq.P2p.Peers.State.{
  PeerInfo, Peer, Address, get_peers, peers_response, Peers, update_peer_info, add_to_peer_infos,
}

-- `date: … as i64`
abbrev as_i64 : ℕ → ℤ
as_i64 n =
    let low : ℕ = n % 2 ^ 64 in if ltb low (2 ^ 63) then pos low else negsuc (2 ^ 64 - 1 - low)

abbrev capabilities_or : Option (List Capability) → List ℤ
capabilities_or none = []
capabilities_or (some cs) = map as_i32 cs

-- `From<(NodeAddress, &PeerInfo)>`
unfoldable pub peer_of : NodeAddress → PeerInfo → Peer
peer_of addr info = record {
  node_address = some addr;
  date = as_i64 (info.reported_alive_at / 1_000_000);
  supported_capabilities =
      capabilities_or (or_else info.reported_capabilities info.gossiped_capabilities);
}

abbrev report_one : NodeAddress → Option PeerInfo → List Peer → List Peer
report_one addr none rest = rest
report_one addr (some info) rest = peer_of addr info ∷ rest

unfoldable pub peers_to_report :
    HashMap ConnectionId NodeAddress → HashMap NodeAddress PeerInfo → ConnectionId → List Peer
peers_to_report [] infos exclude = []
peers_to_report ((id, addr) ∷ rest) infos exclude =
    let others = peers_to_report rest infos exclude in
    if id == exclude then others else report_one addr (get addr infos) others

abbrev pub ask : Option Address → ConnectionId → Peers → Peers
ask none id peers = peers
ask (some conn) id peers = record peers {
  sent =
      get_peers conn peers.local_addr
        (peers_to_report peers.identified_connections peers.peer_infos id)
      ∷ peers.sent;
}

-- `request_peers_from`, up to the response.
unfoldable pub request_peers_from : ConnectionId → Peers → Peers
request_peers_from id peers = ask (get id peers.connections) id peers

abbrev pub reported_by : ℕ → List ℤ → Option NodeAddress → Peers → Peers
reported_by now capabilities none peers = peers
reported_by now capabilities (some addr) peers =
    update_peer_info addr now none (some capabilities) peers

-- The response.
unfoldable pub peers_received : ℕ → ConnectionId → List ℤ → List Peer → Peers → Peers
peers_received now id capabilities reported peers =
    add_to_peer_infos reported
      (reported_by now capabilities (get id peers.identified_connections) peers)

abbrev pub identified_by : ℕ → ConnectionId → Option NodeAddress → List ℤ → Peers → Option Peers
identified_by now id none capabilities peers = some peers
identified_by now id (some addr) capabilities peers =
    let known = update_peer_info addr now none (some capabilities) peers in
    elim (connection_identified now id addr known.status) [
      | none ↦ none
      | some status ↦ some (record known {
        status = status;
        identified_connections = insert id addr known.identified_connections;
      })
    ]

-- `Handler<Receive<GetPeersRequest>>`, up to the question to the keep-alive actor.
unfoldable pub handle_get_peers :
    ℕ → ConnectionId → Option NodeAddress → List ℤ → List Peer → Peers → Option Peers
handle_get_peers now id sender capabilities reported peers =
    identified_by now id sender capabilities (add_to_peer_infos reported peers)

-- Its end: the response goes to the connection that it took from the map.
unfoldable pub respond : Address → ConnectionId → ℤ → Peers → Peers
respond conn id nonce peers = record peers {
  sent =
      peers_response conn nonce (peers_to_report peers.identified_connections peers.peer_infos id)
      ∷ peers.sent;
}

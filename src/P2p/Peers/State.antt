-- ===== src/P2p/Peers/State.antt =====
-- The state of the actor of src/p2p/peers.rs, and what it knows of its peers. What it sends to
-- other actors is a list in its state, the latest message first.
use risq.Base.{ℕ, ◌*◌, ◌/◌, Option, none, some, List, [], ◌∷◌, ltb, if◌then◌else◌, nat_eq}
use risq.Base.Int.{as_u64, ℤ}
use risq.Base.HashMap.{HashMap, get, insert}
use risq.Capability.{Capability, try_from, CloseConnectionReason}
use risq.Offer.{from_millis}
use risq.P2p.Status.{ConnectionId, NodeAddress, address_eq, Status, or_else}

abbrev pub max_connections : ℕ
max_connections = 12

-- `MAX_CONNECTIONS / 7 * 10`
abbrev pub min_connections : ℕ
min_connections = max_connections / 7 * 10

pub record PeerInfo : Type 0 where
  pub reported_alive_at : ℕ
  pub gossiped_capabilities : Option (List Capability)
  pub reported_capabilities : Option (List Capability)

-- Of src/generated/io.bisq.protobuffer.rs.
pub record Peer : Type 0 where
  pub node_address : Option NodeAddress
  pub date : ℤ
  pub supported_capabilities : List ℤ

-- The address of a connection's actor.
abbrev pub Address : Type 0
Address = ℕ

-- A message to another actor, or a connection to open.
pub data Sent : Type 0 where
  tell_keep_alive : ConnectionId → Address → Sent
  tell_broadcaster : ConnectionId → Address → Sent
  shutdown : Address → CloseConnectionReason → Sent
  set_dispatcher : Address → Sent
  open_to : NodeAddress → Sent
  get_peers : Address → Option NodeAddress → List Peer → Sent
  peers_response : Address → ℤ → List Peer → Sent

pub record Peers : Type 0 where
  pub connections : HashMap ConnectionId Address
  pub identified_connections : HashMap ConnectionId NodeAddress
  pub peer_infos : HashMap NodeAddress PeerInfo
  pub local_addr : Option NodeAddress
  pub status : Status
  pub sent : List Sent

-- `Peers::start`
abbrev pub start : Peers
start = record {
  connections = [];
  identified_connections = [];
  peer_infos = [];
  local_addr = none;
  status = [];
  sent = [];
}

abbrev cons_some {ℓ} : {A : Type ℓ} → Option A → List A → List A
cons_some none xs = xs
cons_some (some x) xs = x ∷ xs

-- `filter_map(|i| i.try_into().ok())`
unfoldable pub read_capabilities : List ℤ → List Capability
read_capabilities [] = []
read_capabilities (n ∷ ns) = cons_some (try_from n) (read_capabilities ns)

abbrev pub read_all : Option (List ℤ) → Option (List Capability)
read_all none = none
read_all (some ns) = some (read_capabilities ns)

abbrev later : ℕ → ℕ → ℕ
later old new = if ltb old new then new else old

abbrev update_info :
    Option PeerInfo → ℕ → Option (List Capability) → Option (List Capability) → PeerInfo
update_info none at gossiped reported = record {
  reported_alive_at = at;
  gossiped_capabilities = gossiped;
  reported_capabilities = reported;
}
update_info (some info) at gossiped reported = record {
  reported_alive_at = later info.reported_alive_at at;
  gossiped_capabilities = or_else gossiped info.gossiped_capabilities;
  reported_capabilities = or_else reported info.reported_capabilities;
}

unfoldable pub update_peer_info :
    NodeAddress → ℕ → Option (List ℤ) → Option (List ℤ) → Peers → Peers
update_peer_info addr at gossiped reported peers = record peers {
  peer_infos =
      insert addr
        (update_info (get addr peers.peer_infos) at (read_all gossiped) (read_all reported))
        peers.peer_infos;
}

abbrev pub add_peer_info : Option NodeAddress → ℤ → List ℤ → Peers → Peers
add_peer_info none date capabilities peers = peers
add_peer_info (some addr) date capabilities peers =
    update_peer_info addr (from_millis (as_u64 date)) (some capabilities) none peers

unfoldable pub add_to_peer_infos : List Peer → Peers → Peers
add_to_peer_infos [] peers = peers
add_to_peer_infos (p ∷ reported) peers =
    add_to_peer_infos reported (add_peer_info p.node_address p.date p.supported_capabilities peers)

-- ===== src/P2p/Broadcast.antt =====
-- src/p2p/broadcast.rs: the actor that sends a message to all connections but one. A weak address
-- is a number; `connected` tells which actors are running when a handler reads it.
pub mod Receivers
use risq.Base.{Bool, false, Option, none, some, [], ◌∷◌, ◌==◌, nat_eq, if◌then◌else◌}
use risq.Base.HashMap.{HashMap, get, insert, remove}
use risq.P2p.Status.{ConnectionId}
use risq.P2p.Peers.State.{Address}

pub record Broadcaster : Type 0 where
  pub connections : HashMap ConnectionId Address

-- `Broadcaster::start`
abbrev pub start_broadcaster : Broadcaster
start_broadcaster = record { connections = [] }

-- The addresses that a message goes to, each with its connection.
abbrev pub Receivers : Type 0
Receivers = HashMap ConnectionId Address

abbrev pub is_excluded : Option ConnectionId → ConnectionId → Bool
is_excluded none id = false
is_excluded (some exclude) id = id == exclude

-- The loop of `retain`: the connections that stay, and those that the message is sent to.
unfoldable pub retain :
    (Address → Bool)
    → Option ConnectionId
    → HashMap ConnectionId Address
    → HashMap ConnectionId Address × Receivers
retain connected exclude [] = ([], [])
retain connected exclude ((id, conn) ∷ rest) =
    let (kept, sent) = retain connected exclude rest in
    if connected conn
    then ((id, conn) ∷ kept, if is_excluded exclude id then sent else (id, conn) ∷ sent)
    else (kept, sent)

-- `Handler<Broadcast>`
unfoldable pub handle_broadcast :
    (Address → Bool) → Option ConnectionId → Broadcaster → Broadcaster × Receivers
handle_broadcast connected exclude b =
    let (kept, sent) = retain connected exclude b.connections in
    (record { connections = kept }, sent)

-- `Handler<Direct>`
unfoldable pub handle_direct :
    (Address → Bool) → ConnectionId → Broadcaster → Broadcaster × Option Address
handle_direct connected receiver b = elim (get receiver b.connections) [
  | none ↦ (b, none)
  | some conn ↦
      if connected conn
      then (b, some conn)
      else (record { connections = remove receiver b.connections }, none)
]

-- `Handler<ConnectionAdded>`
abbrev pub handle_added : ConnectionId → Address → Broadcaster → Broadcaster
handle_added id conn b = record { connections = insert id conn b.connections }

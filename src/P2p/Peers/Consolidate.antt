-- ===== src/P2p/Peers/Consolidate.antt =====
-- What the timer of src/p2p/peers.rs leaves of the connections.
use risq.Base.{
  ◌≡◌, ◌∙◌, Bool, false, not, ◌&&◌, ◌||◌, Option, none, some, List, [], ◌∷◌, arith, nat_eq, ◌==◌,
  if◌then◌else◌,
}
use risq.Base.HashMap.{HashMap, get, contains_key, get-remove, Distinct, bind}
use risq.Base.HashSet.{contains}
use risq.P2p.Status.{ConnectionId, NodeAddress}
use risq.P2p.Peers.{
  Peers, Address, remove_ids, remove_one, remove_each, drop_connection, consolidate,
}

get-remove_one :
    (connected : Address → Bool) (id j : ConnectionId) (p : Peers)
    → get j (remove_one connected id p).connections
      ≡ (if id == j then none else get j p.connections)
unfolding remove_one drop_connection
get-remove_one connected id j p = ground (arith, get-remove id j p.connections)

get-remove_each :
    (connected : Address → Bool) (ids : List ConnectionId) (j : ConnectionId) (p : Peers)
    → get j (remove_each connected ids p).connections
      ≡ (if contains j ids then none else get j p.connections)
unfolding remove_each contains
get-remove_each connected [] j p = ground arith
get-remove_each connected (id ∷ ids) j p =
    get-remove_each connected ids j (remove_one connected id p)
    ∙ ground (arith, get-remove_one connected id j p)

-- A connection that the timer removes.
abbrev goes :
    (Address → Bool) → HashMap ConnectionId NodeAddress → ConnectionId → Option Address → Bool
goes connected identified j none = false
goes connected identified j (some conn) = not (contains_key j identified) || not (connected conn)

contains-remove_ids :
    (connected : Address → Bool) (identified : HashMap ConnectionId NodeAddress)
    (conns : HashMap ConnectionId Address) (j : ConnectionId)
    → Distinct conns
    → contains j (remove_ids connected identified conns) ≡ goes connected identified j (get j conns)
unfolding contains remove_ids get
contains-remove_ids connected identified [] j d = ground arith
contains-remove_ids connected identified ((id, conn) ∷ rest) j d =
    ground (arith, contains-remove_ids connected identified rest j d.1, d.0, nat_eq.beq_iff id j)

-- If no id has two connections, the timer leaves just the connections that are identified and whose
-- actors run.
pub consolidate_keeps :
    (connected : Address → Bool) (p : Peers) (j : ConnectionId)
    → Distinct p.connections
    → get j (consolidate connected p).connections
      ≡ bind (get j p.connections) (λ conn.
        if contains_key j p.identified_connections && connected conn then some conn else none)
unfolding consolidate
consolidate_keeps connected p j d =
    get-remove_each connected (remove_ids connected p.identified_connections p.connections) j p
    ∙ ground (arith, contains-remove_ids connected p.identified_connections p.connections j d)

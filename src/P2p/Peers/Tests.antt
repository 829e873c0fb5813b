-- ===== src/P2p/Peers/Tests.antt =====
-- The actor of src/p2p/peers.rs at work: the laws at concrete states.
use risq.Base.{ℕ, ◌≡◌, refl, Bool, true, none, some, List, [], ◌∷◌, nat_eq, ◌&&◌, if◌then◌else◌}
use risq.Base.Int.{pos}
use risq.Base.HashMap.{get, insert, bind, contains_key}
use risq.P2p.Status.{NodeAddress}
use risq.P2p.Peers.{
  update_peer_info, Peers, Address, Event, start, step, run, seed_connection, incoming_connection,
  close_connection, get_peers_request, timer, add_connection, consolidate,
}
use risq.P2p.Peers.Invariant.{IsValid, start-IsValid, add-IsValid}
use risq.P2p.Peers.Panics.{Outcome, step-Outcome, Lasting, run-Lasting}
use risq.P2p.Peers.Consolidate.{consolidate_keeps}

abbrev seed : NodeAddress
seed = record { host_name = "jhgcy2won7xnslrb.onion"; port = pos 8000 }

abbrev all_run : Address → Bool
all_run conn = true

abbrev all_resolve : NodeAddress → Bool
all_resolve addr = true

abbrev two_open : Peers
two_open = add_connection 20 2 102 none (add_connection 10 1 101 (some seed) start)

two_open-IsValid : IsValid two_open
two_open-IsValid =
    add-IsValid 20 2 102 none (add_connection 10 1 101 (some seed) start)
      (add-IsValid 10 1 101 (some seed) start start-IsValid)

-- A request on a connection that has been closed.
abbrev late_request : Event
late_request = get_peers_request 3 (some seed) [] []

step-Outcome_example :
    Outcome all_resolve late_request two_open (step 30 all_run all_resolve late_request two_open)
step-Outcome_example = step-Outcome 30 all_run all_resolve late_request two_open two_open-IsValid

abbrev events : List (ℕ × (Address → Bool) × (NodeAddress → Bool) × Event)
events =
    (10, all_run, all_resolve, seed_connection seed 1 101)
    ∷ (20, all_run, all_resolve, incoming_connection 2 102)
    ∷ (30, all_run, all_resolve, get_peers_request 2 (some seed) (pos 0 ∷ []) [])
    ∷ (40, all_run, all_resolve, close_connection 1)
    ∷ (50, all_run, all_resolve, timer)
    ∷ []

run-Lasting_example : Lasting (run events start)
run-Lasting_example = run-Lasting events start start-IsValid

consolidate_keeps_example :
    get 2 (consolidate all_run two_open).connections
    ≡ bind (get 2 two_open.connections) (λ conn.
      if contains_key 2 two_open.identified_connections && all_run conn then some conn else none)
unfolding add_connection insert get update_peer_info
consolidate_keeps_example = consolidate_keeps all_run two_open 2 (refl, (refl, tt))

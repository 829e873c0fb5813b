-- ===== src/P2p/Tests.antt =====
-- The dispatchers of src/p2p/dispatch.rs and the broadcaster of src/p2p/broadcast.rs at work.
use risq.Base.{◌≡◌, refl, Bool, some, [], ◌∷◌, nat_beq, not, nat_eq}
use risq.Base.HashMap.{get, bind, Distinct}
use risq.P2p.Peers.State.{Address}
use risq.P2p.Broadcast.{Broadcaster, handle_broadcast, retain}
use risq.P2p.Broadcast.Receivers.{stays, receives, broadcast_reaches}

abbrev three : Broadcaster
three = record { connections = (1, 10) ∷ ((2, 20) ∷ ((3, 30) ∷ [])) }

-- Connection 3 has ended, and 2 is where the message came from.
abbrev running : Address → Bool
running address = not (nat_beq address 30)

three-Distinct : Distinct three.connections
unfolding get
three-Distinct = (refl, (refl, (refl, tt)))

sent_to_first : (handle_broadcast running (some 2) three).1 ≡ (1, 10) ∷ []
unfolding handle_broadcast retain
sent_to_first = refl

broadcast_reaches_example :
    (get 1 (handle_broadcast running (some 2) three).1
      ≡ bind (get 1 three.connections) (receives running (some 2) 1))
    × Distinct (handle_broadcast running (some 2) three).1
    × (get 1 (handle_broadcast running (some 2) three).0.connections
        ≡ bind (get 1 three.connections) (stays running (some 2) 1))
    × Distinct (handle_broadcast running (some 2) three).0.connections
broadcast_reaches_example = broadcast_reaches running (some 2) three 1 three-Distinct

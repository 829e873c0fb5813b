-- ===== src/P2p/KeepAlive/Tests.antt =====
-- The timer of src/p2p/peers/keep_alive.rs at work: the actors with an even address still run.
use risq.Base.{ℕ, ◌%◌, ◌≡◌, refl, Bool, nat_beq, [], ◌∷◌, arith}
use risq.Base.Int.{ℤ, pos}
use risq.Base.HashMap.{get, remove}
use risq.Offer.{from_secs}
use risq.P2p.Status.{ConnectionId}
use risq.P2p.KeepAlive.{Info, KeepAlive, tick, retain, ping_peer, last_activity_age}
use risq.P2p.KeepAlive.Pings.{IsNoticed, tick-IsNoticed}

abbrev runs : ℕ → Bool
runs address = nat_beq (address % 2) 0

abbrev clock : ConnectionId → ℕ
clock id = from_secs 1000

abbrev nonces : ConnectionId → ℤ
nonces id = pos id

abbrev active_at : ℕ → Info
active_at secs = record { last_active = from_secs secs; last_round_trip_time = 0 }

abbrev two_peers : KeepAlive ℕ
two_peers = record {
  infos = (1, active_at 900) ∷ (2, active_at 900) ∷ (3, active_at 990) ∷ [];
  connections = (1, 10) ∷ (2, 11) ∷ (3, 13) ∷ [];
}

-- The second actor has ended; the third has too, but its peer has been active.
swept :
    (tick runs (last_activity_age 2) clock nonces two_peers).0.connections ≡ (1, 10) ∷ (3, 13) ∷ []
unfolding tick retain ping_peer get remove
swept = refl

tick-IsNoticed_example : IsNoticed runs (last_activity_age 2) clock nonces two_peers 2 11
unfolding get
tick-IsNoticed_example =
    tick-IsNoticed runs 2 clock nonces two_peers 2 11 (refl, (refl, (refl, tt))) refl (omega arith)

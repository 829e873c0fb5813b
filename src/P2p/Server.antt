-- ===== src/P2p/Server.antt =====
-- src/p2p/server.rs: the actor that listens for peers, and tells its address when it starts. `none`
-- is a panic.
pub mod Start
mod Tests
use risq.Base.{
  ℕ, String, ◌≡◌, refl, Bool, true, false, Option, none, some, List, [], ◌∷◌, All, ◌>>=◌,
  >>=-eq-some, if◌then◌else◌, arith,
}
use risq.Base.Int.{pos}
use risq.P2p.Status.{NodeAddress}
use risq.P2p.Tor.Line.{Outcome, done, failed, panicked}
use risq.P2p.Tor.{TorControl, OnionAddr, AddOnionConfig, add_v2_onion, follow}
use risq.P2p.Tor.Auth.{TorCrypto, authenticate}

-- The path of the private key is left out: the file is in `TorControl`.
pub record TorConfig : Type 0 where
  pub hidden_service_port : ℕ
  pub tc_port : ℕ

-- Whether there is a `Bootstrap` to tell.
pub record Server : Type 0 where
  pub listen_port : ℕ
  pub tor_conf : Option TorConfig
  pub bootstrap : Bool

-- `server_started` to the bootstrap and to the peers, and `incoming_connection` to the peers.
pub data Sent (C : Type 0) : Type 0 where
  to_bootstrap : NodeAddress → Sent C
  to_peers : NodeAddress → Sent C
  incoming_connection : C → Sent C

abbrev pub expect : {A : Type 0} → Outcome A → Option A
expect (done a) = some a
expect (failed e) = none
expect panicked = none

abbrev pub address : String → ℕ → NodeAddress
address host_name port = record { host_name = host_name; port = pos port }

abbrev pub announce : {C : Type 0} → Bool → NodeAddress → List (Sent C)
announce true addr = to_bootstrap addr ∷ to_peers addr ∷ []
announce false addr = to_peers addr ∷ []

module _ (c : TorCrypto) (client_nonce : List ℕ) where
  -- `connect` on the stream to Tor, none if there is none, and `add_v2_onion`.
  unfoldable pub hidden_service : Server → TorConfig → Option TorControl → Option NodeAddress
  hidden_service server tor_conf stream = do
    tc ← stream
    let (authenticated, tc') = authenticate c client_nonce tc
    _ ← expect authenticated
    onion_addr ←
        expect
          (add_v2_onion
            (record {
              virtual_port = tor_conf.hidden_service_port;
              target_port = server.listen_port;
            })
            tc').0
    some (address onion_addr.onion_service onion_addr.port)

  abbrev pub own_address : Server → Option TorConfig → Option TorControl → Option NodeAddress
  own_address server none stream = some (address "127.0.0.1" server.listen_port)
  own_address server (some tor_conf) stream = hidden_service server tor_conf stream

  -- `started`, if the port can be bound or not.
  unfoldable pub started : {C : Type 0} → Bool → Server → Option TorControl → Option (List (Sent C))
  unfolding hidden_service
  started false server stream = none
  started true server stream = do
    addr ← own_address server server.tor_conf stream
    some (announce server.bootstrap addr)

-- The `StreamHandler`
abbrev pub handle : {C : Type 0} → C → Sent C
handle connection = incoming_connection connection

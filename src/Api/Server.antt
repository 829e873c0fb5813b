-- ===== src/Api/Server.antt =====
-- The routes of src/api/server.rs and src/api/graphql.rs.
use risq.Base.{ℕ, ◌/◌, String, Option, map}
use risq.Base.HashMap.{HashMap}
use risq.Address.{display}
use risq.P2p.Status.{ConnectionId, Status, ConnectionStatus}
use risq.P2p.Bootstrap.{BootstrapState, pre_bootstrap, initial_bootstrap_in_progress, bootstrapped}
use risq.Api.Trades.{map_option}

-- `Display` of the state
unfoldable pub state_text : BootstrapState → String
state_text pre_bootstrap = "PreBootstrap"
state_text initial_bootstrap_in_progress = "InitialBootstrapInProgress"
state_text bootstrapped = "Running"

pub record ConnInfo : Type 0 where
  pub addr : Option String
  pub alive_at : ℕ

pub record StatusResponse : Type 0 where
  pub state : String
  pub connections : HashMap String ConnInfo

abbrev pub conn_info : ConnectionStatus → ConnInfo
conn_info s = record { addr = map_option display s.addr; alive_at = s.alive_at / 1_000_000_000 }

-- The route `/status`. The text of an id is an argument; ids are unique, and their texts are too.
unfoldable pub status : (ConnectionId → String) → BootstrapState → Status → StatusResponse
unfolding state_text
status id_text state connections = record {
  state = state_text state;
  connections = map (λ e. (id_text e.0, conn_info e.1)) connections;
}

-- `HttpResponse` to a query
pub data Response (A : Type 0) : Type 0 where
  service_unavailable : String → Response A
  answered : A → Response A

-- The route `/graphql`, with what the execution of the query on the context gives.
unfoldable pub graphql : {A : Type 0} → BootstrapState → A → Response A
unfolding state_text
graphql bootstrapped result = answered result
graphql pre_bootstrap result = service_unavailable (state_text pre_bootstrap)
graphql initial_bootstrap_in_progress result =
    service_unavailable (state_text initial_bootstrap_in_progress)

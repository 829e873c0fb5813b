-- ===== src/Cli/Config.antt =====
-- Which configuration `daemon` of src/cli.rs makes of arguments that clap has accepted.
use risq.Base.{
  ℕ, ◌≤◌, String, ◌≡◌, ap, ◌∙◌, ◌⊎◌, inl, inr, refl, true, false, Option, none, some, All, arith,
  Bool-cases,
}
use risq.Base.Text.{from_str_bound, from_str, scan}
use risq.P2p.Status.{NodeAddress}
use risq.Address.{
  Parsed, ok, err, btc_mainnet, u16_from_str, parse_address, BaseCurrencyNetwork, network_from_str,
}
use risq.Cli.{
  Arg, arg, valid_if, forced, forget, Matches, network, port, node_address, daemon_args,
  DaemonConfig, port_value, tor_port, home, daemon,
}

-- What clap sees to: an argument has its default or a value that the validator accepts.
abbrev pub IsAccepted : Matches → Arg → Type 0
IsAccepted matches a = (elim a.default_value as (λ d. Type 0) [
  | none ↦ (value : String) → matches.value_of a.name ≡ some value → a.validator value ≡ ok tt
  | some d ↦
      (value : String) × (matches.value_of a.name ≡ some value)
      × ((value ≡ d) ⊎ (a.validator value ≡ ok tt))
])

forgotten : (r : Parsed NodeAddress) → forget r ≡ ok tt → (addr : NodeAddress) × (r ≡ ok addr)
forgotten (ok addr) e = (addr, refl)
forgotten (err message) e = cc

mainnet : network_from_str "BtcMainnet" ≡ some btc_mainnet
unfolding network_from_str
mainnet = refl

accepted :
    {A : Type 0} (o : Option A) (message : String)
    → valid_if o message ≡ ok tt
    → (a : A) × (o ≡ some a)
accepted none message e = cc
accepted (some a) message e = (a, refl)

accepted_port :
    (value : String) → port value ≡ ok tt → (n : ℕ) × (u16_from_str value ≡ some n) × (n ≤ 65535)
unfolding port u16_from_str
accepted_port value e =
    let (n, read) = accepted (u16_from_str value) _ e in (n, read, from_str_bound 65535 value read)

default_port :
    (d : String) (m : ℕ)
    → u16_from_str d ≡ some m
    → m ≤ 65535
    → {value : String} → (value ≡ d) ⊎ (port value ≡ ok tt)
    → (n : ℕ) × (u16_from_str value ≡ some n) × (n ≤ 65535)
default_port d m e h {value} (inl same) = (m, ap u16_from_str same ∙ e, h)
default_port d m e h {value} (inr fits) = accepted_port value fits

-- A port, from its argument.
abbrev pub IsPort : Matches → String → ℕ → Type 0
IsPort matches name n = (port_value matches name ≡ some n) × (n ≤ 65535)

pub port_value-IsPort :
    (matches : Matches) (name d : String) (m : ℕ)
    → u16_from_str d ≡ some m
    → m ≤ 65535
    → IsAccepted matches (arg name (some d) port)
    → (n : ℕ) × IsPort matches name n
unfolding port_value
port_value-IsPort matches name d m e h (value, given, fits) =
    let (n, read, below) = default_port d m e h fits in (n, (rw given read, below))

-- Tor is off and there is no port, or the port is that of the argument.
abbrev pub IsTorPort : Matches → String → Option ℕ → Type 0
IsTorPort matches name p =
    ((matches.is_present "NO_TOR" ≡ true) × (p ≡ none))
    ⊎ ((matches.is_present "NO_TOR" ≡ false) × (n : ℕ) × (p ≡ some n) × IsPort matches name n)

tor_port-IsTorPort :
    (matches : Matches) (name : String)
    → ((n : ℕ) × IsPort matches name n)
    → (p : Option ℕ) × (tor_port matches name ≡ some p) × IsTorPort matches name p
unfolding tor_port
tor_port-IsTorPort matches name (n, is_port) = elim (Bool-cases (matches.is_present "NO_TOR")) [
  | inl off ↦ (none, rw off refl, inl (off, refl))
  | inr on ↦ (some n, rw (on, is_port.0) refl, inr (on, n, refl, is_port))
]

accepted_network :
    (value : String)
    → network value ≡ ok tt
    → (n : BaseCurrencyNetwork) × (network_from_str value ≡ some n)
unfolding network
accepted_network value e = accepted (network_from_str value) _ e

default_network :
    {value : String}
    → (value ≡ "BtcMainnet") ⊎ (network value ≡ ok tt)
    → (n : BaseCurrencyNetwork) × (network_from_str value ≡ some n)
default_network {value} (inl same) = (btc_mainnet, ap network_from_str same ∙ mainnet)
default_network {value} (inr fits) = accepted_network value fits

accepted_seed :
    (value : String)
    → node_address value ≡ ok tt
    → (addr : NodeAddress) × (parse_address value ≡ ok addr)
unfolding node_address
accepted_seed value e = forgotten (parse_address value) e

-- What the configuration has of each argument.
pub record IsConfig (matches : Matches) (config : DaemonConfig) : Type 0 where
  pub api_port : IsPort matches "API_PORT" config.api_port
  pub server_port : IsPort matches "P2P_PORT" config.server_port
  pub network :
      (value : String) × (matches.value_of "NETWORK" ≡ some value)
      × (network_from_str value ≡ some config.network)
  pub force_seed :
      (seed : String)
      → matches.value_of "FORCE_SEED" ≡ some seed
      → (addr : NodeAddress) × (parse_address seed ≡ ok addr) × (config.force_seed ≡ some addr)
  pub tor_proxy_port : IsTorPort matches "TOR_SOCKS_PORT" config.tor_proxy_port
  pub tor_control_port : IsTorPort matches "TOR_CONTROL_PORT" config.tor_control_port
  pub hidden_service_port : IsTorPort matches "TOR_HIDDEN_SERVICE_PORT" config.hidden_service_port

forced_seed :
    (matches : Matches) (seed : String)
    → ((value : String) → matches.value_of "FORCE_SEED" ≡ some value → node_address value ≡ ok tt)
    → matches.value_of "FORCE_SEED" ≡ some seed
    → (addr : NodeAddress) × (parse_address seed ≡ ok addr)
      × (forced (matches.value_of "FORCE_SEED") ≡ some addr)
forced_seed matches seed h given =
    let (addr, read) = accepted_seed seed (h seed given) in (addr, read, rw (given, read) refl)

found_home :
    (push : String → String → String) (var dir : Option String)
    → (path : String) × ((var ≡ some path) ⊎ (dir ≡ some path))
    → (path : String) × (home push var dir ≡ some path)
unfolding home
found_home push (some var) dir h = (var, refl)
found_home push none (some dir) h = (push dir ".risq", refl)
found_home push none none (path, inl e) = cc
found_home push none none (path, inr e) = cc

module _ {Level : Type 0} (level_from_str : String → Option Level) where
  -- With arguments that clap has accepted, and a directory for the program, the command does not
  -- panic. The configuration has the ports, below 65536, the network and the seed node that the
  -- arguments name; it has ports of Tor just where NO_TOR is absent.
  pub daemon-IsConfig :
      (push : String → String → String) (risq_home_var home_dir : Option String) (matches : Matches)
      → All (IsAccepted matches) (daemon_args level_from_str)
      → (path : String) × ((risq_home_var ≡ some path) ⊎ (home_dir ≡ some path))
      → (config : DaemonConfig) × (daemon push risq_home_var home_dir matches ≡ some config)
        × IsConfig matches config
  unfolding daemon u16_from_str from_str scan
  daemon-IsConfig push var dir matches
        (api, (log, (net, (p2p, (seed, (control, (hidden, (socks, _)))))))) h =
      let (path, at_home) = found_home push var dir h in
      let (api_port, is_api) =
        port_value-IsPort matches "API_PORT" "7477" 7477 refl (omega arith) api in
      let (server_port, is_server) =
        port_value-IsPort matches "P2P_PORT" "5000" 5000 refl (omega arith) p2p in
      let (value, given, fits) = net in
      let (net, is_net) = default_network fits in
      let (level, logged, _) = log in
      let (socks_port, got_socks, is_socks) =
        tor_port-IsTorPort matches "TOR_SOCKS_PORT"
          (port_value-IsPort matches "TOR_SOCKS_PORT" "9050" 9050 refl (omega arith) socks) in
      let (control_port, got_control, is_control) =
        tor_port-IsTorPort matches "TOR_CONTROL_PORT"
          (port_value-IsPort matches "TOR_CONTROL_PORT" "9051" 9051 refl (omega arith) control) in
      let (hidden_port, got_hidden, is_hidden) =
        tor_port-IsTorPort matches "TOR_HIDDEN_SERVICE_PORT" (
          port_value-IsPort matches "TOR_HIDDEN_SERVICE_PORT" "9999" 9999 refl (omega arith)
            hidden) in
      (
        record {
          api_port = api_port;
          server_port = server_port;
          network = net;
          force_seed = forced (matches.value_of "FORCE_SEED");
          risq_home = path;
          tor_control_port = control_port;
          tor_proxy_port = socks_port;
          hidden_service_port = hidden_port;
        },
        rw
            (
              at_home, given, is_net, is_api.0, is_server.0, logged, got_socks, got_control,
              got_hidden,
            )
            refl,
        record {
          api_port = is_api;
          server_port = is_server;
          network = (value, given, is_net);
          force_seed = λ s e. forced_seed matches s seed e;
          tor_proxy_port = is_socks;
          tor_control_port = is_control;
          hidden_service_port = is_hidden;
        },
      )

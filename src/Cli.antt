-- ===== src/Cli.antt =====
-- src/cli.rs and src/cli/query.rs: the arguments of the commands `daemon` and `offers`, and what
-- the commands make of them. The crate clap gives the values, Matches; `none` is a panic.
pub mod Config
pub mod Answers
mod Tests
use Prim.Native.String.{◌++◌}
use risq.Base.{
  ℕ, String, Bool, true, false, Option, none, some, List, [], ◌∷◌, ◌>>=◌, map, length, ◌+◌, ◌==◌,
  string_eq, nat_eq, if◌then◌else◌,
}
use risq.Base as Base
use risq.P2p.Status.{NodeAddress}
use risq.Address.{
  Parsed, ok, err, u16_from_str, parse_address, BaseCurrencyNetwork, network_from_str,
}
use risq.Currency.{Currency, from_code}
use risq.Market.{Market, from_currency}

abbrev pub Valid : Type 0
Valid = Parsed (Unit {0})

abbrev pub valid_if : {A : Type 0} → Option A → String → Valid
valid_if none message = err message
valid_if (some a) message = ok tt

unfoldable pub network : String → Valid
network s = valid_if (network_from_str s) "(BtcMainnet|BtcTestnet|BtcRegtest)"

unfoldable pub port : String → Valid
port s = valid_if (u16_from_str s) ("'" ++ (s ++ "' is not a valid port number"))

abbrev pub forget : {A : Type 0} → Parsed A → Valid
forget (ok a) = ok tt
forget (err e) = err e

unfoldable pub node_address : String → Valid
node_address addr = forget (parse_address addr)

unfoldable pub market : String → Valid
market s =
    if s == "all"
    then ok tt
    else valid_if (from_code s) ("'" ++ (s ++ "' is not a valid currency code"))

-- An argument that takes a value: its name, its default and its validator.
pub record Arg : Type 0 where
  pub name : String
  pub default_value : Option String
  pub validator : String → Valid

abbrev pub arg : String → Option String → (String → Valid) → Arg
arg name default_value validator = record {
  name = name;
  default_value = default_value;
  validator = validator;
}

module _ {Level : Type 0} (level_from_str : String → Option Level) where
  unfoldable pub level : String → Valid
  level s = valid_if (level_from_str s) ("'" ++ (s ++ "' is not a valid logging level"))

  -- The arguments of `daemon` in `app`, less the flag NO_TOR.
  abbrev pub daemon_args : List Arg
  daemon_args =
      arg "API_PORT" (some "7477") port
      ∷ arg "LOG_LEVEL" (some "info") level
      ∷ arg "NETWORK" (some "BtcMainnet") network
      ∷ arg "P2P_PORT" (some "5000") port
      ∷ arg "FORCE_SEED" none node_address
      ∷ arg "TOR_CONTROL_PORT" (some "9051") port
      ∷ arg "TOR_HIDDEN_SERVICE_PORT" (some "9999") port
      ∷ arg "TOR_SOCKS_PORT" (some "9050") port
      ∷ []

abbrev pub offers_args : List Arg
offers_args = arg "API_PORT" (some "7477") port ∷ arg "MARKET" (some "all") market ∷ []

-- `ArgMatches`
pub record Matches : Type 0 where
  pub value_of : String → Option String
  pub is_present : String → Bool

pub record DaemonConfig : Type 0 where
  pub api_port : ℕ
  pub server_port : ℕ
  pub network : BaseCurrencyNetwork
  pub force_seed : Option NodeAddress
  pub risq_home : String
  pub tor_control_port : Option ℕ
  pub tor_proxy_port : Option ℕ
  pub hidden_service_port : Option ℕ

abbrev pub ok_of : {A : Type 0} → Parsed A → Option A
ok_of (ok a) = some a
ok_of (err e) = none

abbrev pub forced : Option String → Option NodeAddress
forced seed = do addr ← seed; ok_of (parse_address addr)

-- `value_of`, and the two `unwrap`.
unfoldable pub port_value : Matches → String → Option ℕ
port_value matches name = do value ← matches.value_of name; u16_from_str value

-- The variable RISQ_HOME, else a directory in that of the user, to which `push` joins a name.
unfoldable pub home : (String → String → String) → Option String → Option String → Option String
home push (some risq_home) home_dir = some risq_home
home push none none = none
home push none (some home_dir) = some (push home_dir ".risq")

abbrev pub some_port : Option ℕ → Option (Option ℕ)
some_port none = none
some_port (some port) = some (some port)

-- A port that is read only if Tor is used.
unfoldable pub tor_port : Matches → String → Option (Option ℕ)
unfolding port_value
tor_port matches name =
    if matches.is_present "NO_TOR" then some none else some_port (port_value matches name)

unfoldable pub daemon :
    (String → String → String) → Option String → Option String → Matches → Option DaemonConfig
unfolding home port_value tor_port
daemon push risq_home_var home_dir matches = do
  risq_home ← home push risq_home_var home_dir
  value ← matches.value_of "NETWORK"
  network ← network_from_str value
  api_port ← port_value matches "API_PORT"
  server_port ← port_value matches "P2P_PORT"
  _ ← matches.value_of "LOG_LEVEL"
  tor_proxy_port ← tor_port matches "TOR_SOCKS_PORT"
  tor_control_port ← tor_port matches "TOR_CONTROL_PORT"
  hidden_service_port ← tor_port matches "TOR_HIDDEN_SERVICE_PORT"
  some (record {
    api_port = api_port;
    server_port = server_port;
    network = network;
    force_seed = forced (matches.value_of "FORCE_SEED");
    risq_home = risq_home;
    tor_control_port = tor_control_port;
    tor_proxy_port = tor_proxy_port;
    hidden_service_port = hidden_service_port;
  })

-- An offer in the answer to the query of src/cli/query.rs.
pub record Offer : Type 0 where
  pub id : String
  pub market : String
  pub direction : String
  pub price : String
  pub amount : String
  pub min_amount : String
  pub volume : String
  pub payment_method : String

pub record Offers : Type 0 where
  pub buys : List Offer
  pub sells : List Offer

-- The variables of the query, which start with none.
abbrev pub add_variables : Market → List (String × String) → List (String × String)
add_variables market args = ("market", market.pair) ∷ args

-- `IntoIterator`
abbrev pub into_iter : Offers → List Offer
into_iter offers = Base.◌++◌ offers.buys offers.sells

abbrev pub len : Offers → ℕ
len offers = length offers.buys + length offers.sells

-- `Display`
unfoldable pub display : Offer → String
display o =
    o.id
    ++ (" - "
        ++ (o.direction
            ++ (" "
                ++ (o.price
                    ++ (" "
                        ++ (o.amount
                            ++ ("("
                                ++ (o.min_amount
                                    ++ (") " ++ (o.volume ++ (" " ++ o.payment_method)))))))))))

abbrev pub variables_for : Option Currency → Option (List (String × String))
variables_for none = some []
variables_for (some currency) = do market ← from_currency currency; some (add_variables market [])

-- The variables for the value of MARKET.
unfoldable pub variables : String → Option (List (String × String))
variables value = variables_for (from_code value)

-- What is printed for the answer of the API, or for none.
unfoldable pub lines : Option Offers → List String
unfolding display
lines none = "Error trying to reach api" ∷ []
lines (some offers) =
    if len offers == 0
    then "OPEN OFFERS" ∷ "<currently no offers available>" ∷ []
    else "OPEN OFFERS" ∷ map display (into_iter offers)

-- The command, on an API that answers a query on a port.
unfoldable pub offers :
    (ℕ → List (String × String) → Option Offers) → Matches → Option (List String)
unfolding port_value variables lines
offers query matches = do
  api_port ← port_value matches "API_PORT"
  value ← matches.value_of "MARKET"
  vars ← variables value
  some (lines (query api_port vars))

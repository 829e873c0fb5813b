-- ===== src/Address.antt =====
-- The text of addresses and the version of messages, of src/bisq/payload.rs, and the networks of
-- src/bisq/constants.rs.
pub mod Texts
mod Tests
use risq.Base.{
  ℕ, ◌+◌, ◌-◌, ◌*◌, ◌%◌, ◌^◌, String, Option, none, some, List, [], ◌∷◌, ◌||◌, ◌==◌, string_eq,
  if◌then◌else◌,
}
use Prim.Native.String
use Prim.Native.String.{◌++◌}
use risq.Base.Int.{ℤ, pos, negsuc}
use risq.Base.Text.{split, from_str, to_string}
use risq.P2p.Status.{NodeAddress}

-- `Result` with a text for an error.
pub data Parsed (A : Type 0) : Type 0 where
  ok : A → Parsed A
  err : String → Parsed A

-- `u16::from_str`
unfoldable pub u16_from_str : String → Option ℕ
u16_from_str = from_str 65535

abbrev pub address : String → ℕ → NodeAddress
address host_name port = record { host_name = host_name; port = pos port }

abbrev pub with_port : String → Option ℕ → Parsed NodeAddress
with_port host_name none = err "Couldn't parse port"
with_port host_name (some port) = ok (address host_name port)

-- The `match` of `FromStr` on the first two parts.
unfoldable pub address_of_parts : List String → Parsed NodeAddress
unfolding u16_from_str
address_of_parts [] = err "Couldn't parse node address"
address_of_parts (host_name ∷ []) = err "Couldn't parse node address"
address_of_parts (host_name ∷ port ∷ rest) = with_port host_name (u16_from_str port)

-- `FromStr`
unfoldable pub parse_address : String → Parsed NodeAddress
unfolding address_of_parts
parse_address s = address_of_parts (split b':' s)

-- `Display` of an `i32`
unfoldable pub display_i32 : ℤ → String
display_i32 (pos n) = to_string n
display_i32 (negsuc n) = "-" ++ to_string (n + 1)

-- `Display`
unfoldable pub display : NodeAddress → String
unfolding display_i32
display a = a.host_name ++ (":" ++ display_i32 a.port)

-- `as u16`
unfoldable pub as_u16 : ℤ → ℕ
as_u16 (pos n) = n % 2 ^ 16
as_u16 (negsuc n) = 2 ^ 16 - 1 - n % 2 ^ 16

-- The name and the port that `to_socket_addrs` resolves.
unfoldable pub socket_addr : NodeAddress → String × ℕ
unfolding as_u16
socket_addr a = (a.host_name, as_u16 a.port)

pub data BaseCurrencyNetwork : Type 0 where
  btc_mainnet btc_testnet btc_regtest : BaseCurrencyNetwork

-- `FromStr`
unfoldable pub network_from_str : String → Option BaseCurrencyNetwork
network_from_str s =
    if s == "BtcMainnet" || s == "Mainnet"
    then some btc_mainnet
    else if s == "BtcTestnet" || s == "Testnet"
    then some btc_testnet
    else if s == "BtcRegtest" || s == "Regtest"
    then some btc_regtest
    else none

abbrev network_as_i32 : BaseCurrencyNetwork → ℕ
network_as_i32 btc_mainnet = 0
network_as_i32 btc_testnet = 1
network_as_i32 btc_regtest = 2

abbrev p2p_network_version : ℕ
p2p_network_version = 1

-- `MessageVersion::from`
unfoldable pub message_version : BaseCurrencyNetwork → ℤ
message_version network = pos (network_as_i32 network + 10 * p2p_network_version)

unfoldable pub seed_nodes : BaseCurrencyNetwork → List NodeAddress
seed_nodes btc_regtest = address "127.0.0.1" 4002 ∷ []
seed_nodes btc_testnet = address "m5izk3fvjsjbmkqi.onion" 8001 ∷ []
seed_nodes btc_mainnet = address "jhgcy2won7xnslrb.onion" 8000 ∷ []

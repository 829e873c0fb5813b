-- ===== src/Cli/Tests.antt =====
-- Runs of src/cli.rs.
use risq.Base.{
  ℕ, String, ◌≡◌, refl, subst, inl, inr, Option, none, some, [], ◌∷◌, ◌==◌, string_eq,
  if◌then◌else◌,
}
use risq.Base.Text.{from_str, scan, split}
use risq.Address.{ok, u16_from_str, parse_address, address_of_parts, network_from_str}
use risq.Currency.{from_code}
use risq.Cli.{
  Matches, Offers, network, node_address, DaemonConfig, daemon, offers, port_value, variables,
  lines, display,
}
use risq.Cli.Config.{IsConfig, daemon-IsConfig}

-- `risq daemon -n BtcRegtest --force-seed 127.0.0.1:4002 --no-tor`
abbrev local : Matches
local = record {
  value_of = λ name.
      if name == "API_PORT"
      then some "7477"
      else if name == "LOG_LEVEL"
      then some "info"
      else if name == "NETWORK"
      then some "BtcRegtest"
      else if name == "P2P_PORT"
      then some "5000"
      else if name == "FORCE_SEED"
      then some "127.0.0.1:4002"
      else if name == "TOR_CONTROL_PORT"
      then some "9051"
      else if name == "TOR_HIDDEN_SERVICE_PORT"
      then some "9999"
      else if name == "TOR_SOCKS_PORT"
      then some "9050"
      else if name == "MARKET"
      then some "all"
      else none;
  is_present = λ name. name == "NO_TOR";
}

abbrev joined : String → String → String
joined path name = path

abbrev no_level : String → Option ℕ
no_level s = none

regtest_ok : network "BtcRegtest" ≡ ok tt
unfolding network network_from_str
regtest_ok = refl

seed_ok : (value : String) → some "127.0.0.1:4002" ≡ some value → node_address value ≡ ok tt
unfolding node_address parse_address address_of_parts u16_from_str from_str scan split
seed_ok value e =
    let same : "127.0.0.1:4002" ≡ value = cc in subst (λ v. node_address v ≡ ok tt) same refl

daemon-IsConfig_example :
    (config : DaemonConfig) × (daemon joined none (some "/root") local ≡ some config)
    × IsConfig local config
daemon-IsConfig_example =
    daemon-IsConfig no_level joined none (some "/root") local
      (
        ("7477", refl, inl refl),
        (
          ("info", refl, inl refl),
          (
            ("BtcRegtest", refl, inr regtest_ok),
            (
              ("5000", refl, inl refl),
              (
                seed_ok,
                (
                  ("9051", refl, inl refl),
                  (("9999", refl, inl refl), (("9050", refl, inl refl), tt)),
                ),
              ),
            ),
          ),
        ),
      )
      ("/root", inr refl)

abbrev one_offer : Offers
one_offer = record {
  buys = [];
  sells =
      record {
        id = "a";
        market = "xmr_btc";
        direction = "SELL";
        price = "0.01";
        amount = "1.0";
        min_amount = "0.5";
        volume = "0.01";
        payment_method = "BLOCK_CHAINS";
      }
      ∷ [];
}

local_offers :
    offers (λ port vars. some one_offer) local
    ≡ some ("OPEN OFFERS" ∷ "a - SELL 0.01 1.0(0.5) 0.01 BLOCK_CHAINS" ∷ [])
unfolding offers port_value variables lines display from_code u16_from_str from_str scan
local_offers = refl

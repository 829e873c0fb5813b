-- ===== src/P2p/Server/Tests.antt =====
-- Runs of src/p2p/server.rs.
use risq.Base.{ℕ, ◌≡◌, refl, true, false, Option, none, some, List, [], ◌∷◌}
use risq.P2p.Tor.{TorControl, lines_from, read_lines, send_command, save_key, add_v2_onion}
use risq.Base as Base
use risq.Base.Text.{split, scan, from_str}
use risq.P2p.Tor.Line.{
  split_at, parse_status, is_last_line, parse_line, handle_code, try_from, trim_end, trim_matches,
  trim_start_matches, trim_end_matches,
}
use risq.P2p.Tor.Auth.{protocol_info, get_auth_cookie, answer_challenge, authenticate}
use risq.P2p.Tor.Reply.{reply}
use risq.P2p.Tor.Onion.{new_onion}
use risq.P2p.Tor.Tests.{crypto, control, good_server}
use risq.P2p.Server.{
  Server, Sent, TorConfig, started, hidden_service, to_peers, to_bootstrap, address,
}

abbrev local : Server
local = record { listen_port = 5000; tor_conf = none; bootstrap = true }

local_start :
    started crypto (5 ∷ []) {C = ℕ} true local none
    ≡ some (to_bootstrap (address "127.0.0.1" 5000) ∷ to_peers (address "127.0.0.1" 5000) ∷ [])
unfolding started
local_start = refl

-- The port is taken.
bound_start : started crypto (5 ∷ []) {C = ℕ} false local none ≡ none
unfolding started
bound_start = refl

abbrev tor : TorConfig
tor = record { hidden_service_port = 9999; tc_port = 9051 }

abbrev hidden : Server
hidden = record local { tor_conf = some tor }

abbrev port : TorControl
port = record (control (Base.◌++◌ good_server (reply (new_onion "abc" "RSA1024:Zm9v") "OK"))) {
  writes = true ∷ true ∷ true ∷ true ∷ [];
}

abbrev told : List (Sent ℕ)
told = to_bootstrap (address "abc.onion" 9999) ∷ to_peers (address "abc.onion" 9999) ∷ []

onion_start : started crypto (5 ∷ []) true hidden (some port) ≡ some told
unfolding started hidden_service authenticate answer_challenge get_auth_cookie protocol_info
    send_command read_lines lines_from parse_line parse_status is_last_line handle_code try_from
    split_at trim_end trim_matches trim_start_matches trim_end_matches split from_str scan
    add_v2_onion save_key
onion_start = refl

-- ===== src/P2p/Tor/Tests.antt =====
-- Runs of src/p2p/tor.rs, with a digest that tells its inputs apart.
use text.Mathlib.TextLemmas.{nil≢cons}
use risq.Base.{
  ℕ, String, ◌≡◌, refl, sym, inl, inr, true, false, Option, none, some, List, [], ◌∷◌, ◌==◌,
  string_eq, if◌then◌else◌, arith,
}
use risq.Base as Base
use risq.Base.Text.{split, scan, from_str}
use risq.P2p.Tor.Line.{
  done, failed, panicked, tor_error, bad_auth, split_at, parse_status, is_last_line, parse_line,
  handle_code, try_from, trim_end, trim_matches, trim_start_matches, trim_end_matches,
}
use risq.P2p.Tor.{
  TorControl, Read, read, AddOnionConfig, lines_from, read_lines, send_command, add_v2_onion,
}
use risq.P2p.Tor.Auth.{
  TorCrypto, protocol_info, get_auth_cookie, answer_challenge, authenticate, server_key,
}
use risq.P2p.Tor.Reply.{reply, read_lines-reply}
use risq.P2p.Tor.Proof.{IsGuarded, authenticate-IsGuarded}
use risq.P2p.Tor.Onion.{new_onion, added, answered, add_v2_onion-saves, add_v2_onion-loses}

abbrev thirty_two : List ℕ
thirty_two =
    1 ∷ 2 ∷ 3 ∷ 4 ∷ 5 ∷ 6 ∷ 7 ∷ 8 ∷ 1 ∷ 2 ∷ 3 ∷ 4 ∷ 5 ∷ 6 ∷ 7 ∷ 8 ∷ 1 ∷ 2 ∷ 3 ∷ 4 ∷ 5 ∷ 6 ∷ 7 ∷ 8
    ∷ 1 ∷ 2 ∷ 3 ∷ 4 ∷ 5 ∷ 6 ∷ 7 ∷ 8 ∷ []

abbrev pub crypto : TorCrypto
crypto = record {
  hmac_sha256 = λ key message. if key == server_key then 7 ∷ message else 9 ∷ message;
  hash_from_str =
      λ text. if text == "AB" then some (7 ∷ Base.◌++◌ thirty_two (5 ∷ 6 ∷ [])) else none;
  hash_to_string = λ hash. "CD";
  from_hex = λ text. if text == "06" then some (6 ∷ []) else none;
  to_hex = λ bytes. "05";
  read_file = λ path. if path == "/run/cookie" then some thirty_two else none;
}

abbrev pub control : List Read → TorControl
control received = record {
  received = received;
  writes = true ∷ true ∷ true ∷ [];
  sent = [];
  key_file = none;
  key_create = true;
  key_write = true;
}

abbrev info_reply : List Read
info_reply =
    read "250-PROTOCOLINFO 1\r\n"
    ∷ read "250-AUTH METHODS=COOKIE,SAFECOOKIE COOKIEFILE=\"/run/cookie\"\r\n"
    ∷ read "250 OK\r\n"
    ∷ []

abbrev pub good_server : List Read
good_server =
    Base.◌++◌ info_reply
      (read "250 AUTHCHALLENGE SERVERHASH=AB SERVERNONCE=06\r\n" ∷ read "250 OK\r\n" ∷ [])

abbrev refusing_server : List Read
refusing_server = Base.◌++◌ info_reply (read "515 Bad authentication\r\n" ∷ [])

-- A reply with no hash.
abbrev mute_server : List Read
mute_server = Base.◌++◌ info_reply (read "250 AUTHCHALLENGE\r\n" ∷ [])

good_run : authenticate crypto (5 ∷ []) (control good_server) ≡ (
  done tt,
  record (control []) {
    writes = [];
    sent = "PROTOCOLINFO 1\r\n" ∷ "AUTHCHALLENGE SAFECOOKIE 05\r\n" ∷ "AUTHENTICATE CD\r\n" ∷ [];
  },
)
unfolding authenticate answer_challenge get_auth_cookie protocol_info send_command read_lines
    lines_from parse_line parse_status is_last_line handle_code try_from split_at trim_end
    trim_matches trim_start_matches trim_end_matches split from_str scan
good_run = refl

refused_run :
    (authenticate crypto (5 ∷ []) (control refusing_server)).0 ≡ failed (tor_error bad_auth)
unfolding authenticate answer_challenge get_auth_cookie protocol_info send_command read_lines
    lines_from parse_line parse_status is_last_line handle_code try_from split_at trim_end
    trim_matches trim_start_matches trim_end_matches split from_str scan
refused_run = refl

mute_run : (authenticate crypto (5 ∷ []) (control mute_server)).0 ≡ panicked
unfolding authenticate answer_challenge get_auth_cookie protocol_info send_command read_lines
    lines_from parse_line parse_status is_last_line handle_code try_from split_at trim_end
    trim_matches trim_start_matches trim_end_matches split from_str scan
mute_run = refl

authenticate-IsGuarded_example :
    IsGuarded crypto
      (5 ∷ [])
      (control good_server)
      (authenticate crypto (5 ∷ []) (control good_server))
authenticate-IsGuarded_example = authenticate-IsGuarded crypto (5 ∷ []) (control good_server)

trimmed : trim_end "AUTH METHODS=COOKIE" ≡ "AUTH METHODS=COOKIE"
unfolding trim_end
trimmed = refl

trimmed_ok : trim_end "OK" ≡ "OK"
unfolding trim_end
trimmed_ok = refl

read_lines-reply_example :
    read_lines (control (reply ("AUTH METHODS=COOKIE" ∷ []) "OK"))
    ≡ (done ("AUTH METHODS=COOKIE" ∷ "OK" ∷ []), control [])
read_lines-reply_example =
    read_lines-reply (control (reply ("AUTH METHODS=COOKIE" ∷ []) "OK"))
      ("AUTH METHODS=COOKIE" ∷ []) "OK" [] refl (trimmed, tt) trimmed_ok

abbrev onion_config : AddOnionConfig
onion_config = record { virtual_port = 9999; target_port = 5000 }

add_v2_onion-saves_example :
    add_v2_onion onion_config (control (reply (new_onion "abc" "RSA1024:Zm9v") "OK")) ≡ (
      answered onion_config "abc",
      record (added onion_config (control []) (true ∷ true ∷ []) []) {
        key_file = some "RSA1024:Zm9v";
      },
    )
add_v2_onion-saves_example =
    add_v2_onion-saves onion_config (control (reply (new_onion "abc" "RSA1024:Zm9v") "OK"))
      (true ∷ true ∷ []) [] "abc" "RSA1024:Zm9v" (ground arith) (ground arith) (ground arith)
      (ground arith) (λ e. nil≢cons (sym e)) refl refl refl refl

add_v2_onion-loses_example :
    add_v2_onion onion_config (control (reply (new_onion "abc" "RSA1024:Zm8=") "OK"))
    ≡ (answered onion_config "abc", added onion_config (control []) (true ∷ true ∷ []) [])
add_v2_onion-loses_example =
    add_v2_onion-loses onion_config (control (reply (new_onion "abc" "RSA1024:Zm8=") "OK"))
      (true ∷ true ∷ []) [] "abc" "RSA1024:Zm8" "" (ground arith) (ground arith) (ground arith)
      (ground arith) refl refl

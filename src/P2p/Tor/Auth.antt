-- ===== src/P2p/Tor/Auth.antt =====
-- `authenticate` of src/p2p/tor.rs: the cookie, the challenge and the proofs of both sides.
use Prim.Native.String.{◌++◌}
use risq.Base.{
  ℕ, String, Bool, true, false, Option, none, some, List, [], ◌∷◌, length, ◌==◌, string_eq, nat_eq,
  list_beq, if◌then◌else◌,
}
use risq.Base as Base
use risq.Base.Text.{split}
use risq.P2p.Tor.Line.{
  io_error, cannot_read_auth_cookie, authentication_error, Outcome, done, failed, or_panic,
  trim_matches,
}
use risq.P2p.Tor.{Run, give, ◌>>=◌, send_command, read_lines, foldl, section_of, sections}

-- What the crates bitcoin_hashes and its `hex` do, on bytes, and the file of the cookie.
pub record TorCrypto : Type 0 where
  pub hmac_sha256 : String → List ℕ → List ℕ
  pub hash_from_str : String → Option (List ℕ)
  pub hash_to_string : List ℕ → String
  pub from_hex : String → Option (List ℕ)
  pub to_hex : List ℕ → String
  pub read_file : String → Option (List ℕ)

pub record ProtocolInfo : Type 0 where
  pub cookiefile : String
  pub auth_methods : List String
  pub tor_version : String

abbrev pub server_key : String
server_key = "Tor safe cookie authentication server-to-controller hash"

abbrev pub controller_key : String
controller_key = "Tor safe cookie authentication controller-to-server hash"

-- `cookiefile`, `auth_methods` and `tor_version` in `protocol_info`, as the loop finds them.
pub record Found : Type 0 where
  pub cookiefile : String
  pub auth_methods : String
  pub tor_version : String

abbrev pub info_section : Found → Option (String × String) → Found
info_section found none = found
info_section found (some (name, value)) =
    if name == "COOKIEFILE"
    then record found { cookiefile = value }
    else if name == "METHODS"
    then record found { auth_methods = value }
    else if name == "Tor"
    then record found { tor_version = value }
    else found

abbrev pub info_of : Found → ProtocolInfo
info_of found = record {
  cookiefile = trim_matches b'"' found.cookiefile;
  auth_methods = split b',' found.auth_methods;
  tor_version = trim_matches b'"' found.tor_version;
}

unfoldable pub protocol_info : Run ProtocolInfo
protocol_info tc =
    (do
      _ ← send_command "PROTOCOLINFO 1"
      response ← read_lines
      give (
          done (
            info_of (
              foldl (λ found section. info_section found (section_of section))
                (record { cookiefile = ""; auth_methods = ""; tor_version = "" })
                (sections response)))))
      tc

-- `serverhash` and `servernonce`
abbrev pub challenge_section : String × String → Option (String × String) → String × String
challenge_section found none = found
challenge_section (serverhash, servernonce) (some (name, value)) =
    if name == "SERVERHASH"
    then (value, servernonce)
    else if name == "SERVERNONCE"
    then (serverhash, value)
    else (serverhash, servernonce)

module _ (c : TorCrypto) where
  abbrev pub cookie_of : Option (List ℕ) → Outcome (List ℕ)
  cookie_of none = failed io_error
  cookie_of (some file_content) =
      if length file_content == 32 then done file_content else failed cannot_read_auth_cookie

  unfoldable pub get_auth_cookie : Run (List ℕ)
  get_auth_cookie tc = (do info ← protocol_info; give (cookie_of (c.read_file info.cookiefile))) tc

  abbrev pub prove : List ℕ → List ℕ → Run (Unit {0})
  prove message decoded_server_hash =
      if list_beq (c.hmac_sha256 server_key message) decoded_server_hash
      then send_command ("AUTHENTICATE " ++ c.hash_to_string (c.hmac_sha256 controller_key message))
      else give (failed authentication_error)

  -- `authenticate` from the reply to the challenge on.
  unfoldable pub answer_challenge : List ℕ → List ℕ → List String → Run (Unit {0})
  answer_challenge auth_cookie client_nonce response tc =
      let (serverhash, servernonce) =
        foldl (λ found section. challenge_section found (section_of section)) ("", "")
          (sections response) in
      (do
        decoded_server_hash ← give (or_panic (c.hash_from_str serverhash))
        decoded_server_nonce ← give (or_panic (c.from_hex servernonce))
        _ ←
            prove (Base.◌++◌ auth_cookie (Base.◌++◌ client_nonce decoded_server_nonce))
              decoded_server_hash
        _ ← read_lines
        give (done tt))
        tc

  -- `authenticate`, with the random nonce.
  unfoldable pub authenticate : List ℕ → Run (Unit {0})
  unfolding answer_challenge
  authenticate client_nonce tc =
      (do
        auth_cookie ← get_auth_cookie
        _ ← send_command ("AUTHCHALLENGE SAFECOOKIE " ++ c.to_hex client_nonce)
        response ← read_lines
        answer_challenge auth_cookie client_nonce response)
        tc

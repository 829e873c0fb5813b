-- ===== src/P2p/Tor.antt =====
-- src/p2p/tor.rs: Tor's control port, which proves that it knows the cookie and makes the hidden
-- service. Each operation gives its outcome and the state after it.
pub mod Line
pub mod Auth
pub mod Reply
pub mod Sends
pub mod Proof
pub mod Sections
pub mod Onion
pub mod Tests
use Prim.Native.String.{◌++◌}
use risq.Base.{
  ℕ, String, Bool, true, false, Option, none, some, List, [], ◌∷◌, map, length, ◌==◌, string_eq,
  if◌then◌else◌,
}
use risq.Base as Base
use risq.Base.Text.{split, to_string}
use risq.P2p.Tor.Line.{
  TcError, io_error, unknown_response, cannot_read_auth_cookie, authentication_error, Outcome, done,
  failed, panicked, parse_line, handle_code, trim_end, trim_matches, join, halves,
}
use risq.P2p.Tor.Line as Line

-- What `read_line` gives; behind the last of them the stream has ended.
pub data Read : Type 0 where
  read : String → Read
  broken : Read

-- What the stream will give, whether each of the next writes works, and what is written, the
-- earliest first; and the file of the private key: what it holds, and whether it can be made and
-- written.
pub record TorControl : Type 0 where
  pub received : List Read
  pub writes : List Bool
  pub sent : List String
  pub key_file : Option String
  pub key_create : Bool
  pub key_write : Bool

abbrev pub Run : Type 0 → Type 0
Run A = TorControl → Outcome A × TorControl

infixl 5 ◌>>=◌
abbrev pub follow : {A B : Type 0} → (A → Run B) → Outcome A × TorControl → Outcome B × TorControl
follow k (done a, tc) = k a tc
follow k (failed e, tc) = (failed e, tc)
follow k (panicked, tc) = (panicked, tc)

abbrev pub ◌>>=◌ : {A B : Type 0} → Run A → (A → Run B) → Run B
(m >>= k) tc = follow k (m tc)

abbrev pub give : {A : Type 0} → Outcome A → Run A
give o tc = (o, tc)

abbrev pub sending : List Bool → String → Run (Unit {0})
sending (true ∷ writes) text tc =
    (done tt, record tc { writes = writes; sent = Base.◌++◌ tc.sent (text ∷ []) })
sending (false ∷ writes) text tc = (failed io_error, record tc { writes = writes })
sending [] text tc = (failed io_error, tc)

unfoldable pub send_command : String → Run (Unit {0})
send_command command tc = sending tc.writes (command ++ "\r\n") tc

abbrev pub checked_line : String → Outcome (Bool × String)
checked_line line =
    Line.◌>>=◌ (parse_line line)
      λ (status, end, msg). Line.◌>>=◌ (handle_code status) λ _. done (end, trim_end msg)

abbrev pub pushed : String → Outcome (List String) × List Read → Outcome (List String) × List Read
pushed msg (o, rest) = (Line.◌>>=◌ o λ msgs. done (msg ∷ msgs), rest)

abbrev pub push_line :
    Outcome (Bool × String)
    → List Read
    → Outcome (List String) × List Read
    → Outcome (List String) × List Read
push_line (done (true, msg)) rest more = (done (msg ∷ []), rest)
push_line (done (false, msg)) rest more = pushed msg more
push_line (failed e) rest more = (failed e, rest)
push_line panicked rest more = (panicked, rest)

-- The loop of `read_lines`.
unfoldable pub lines_from : List Read → Outcome (List String) × List Read
unfolding parse_line handle_code
lines_from [] = (failed unknown_response, [])
lines_from (broken ∷ rest) = (failed io_error, rest)
lines_from (read line ∷ rest) = push_line (checked_line line) rest (lines_from rest)

unfoldable pub read_lines : Run (List String)
read_lines tc = let (o, rest) = lines_from tc.received in (o, record tc { received = rest })

abbrev pub foldl {ℓ κ} : {A : Type ℓ} {B : Type κ} → (B → A → B) → B → List A → B
foldl f b [] = b
foldl f b (a ∷ as_) = foldl f (f b a) as_

-- What a loop over the sections of a reply sets, by the name in front of the `=`.
abbrev pub section_of : String → Option (String × String)
section_of section = halves (split b'=' section)

abbrev pub sections : List String → List String
sections response = split b' ' (join response)

-- `service_id` and `private_key`
abbrev pub onion_section : String × String → Option (String × String) → String × String
onion_section (service_id, private_key) none = (service_id, private_key)
onion_section (service_id, private_key) (some (name, value)) =
    if name == "ServiceID"
    then (value, private_key)
    else if name == "PrivateKey"
    then (service_id, value)
    else (service_id, private_key)

pub record AddOnionConfig : Type 0 where
  pub virtual_port : ℕ
  pub target_port : ℕ

pub record OnionAddr : Type 0 where
  pub port : ℕ
  pub onion_service : String

abbrev pub key_param : Option String → String
key_param (some key) = key
key_param none = "NEW:RSA1024"

-- `File::create` and `write_all`, the first of which empties the file.
unfoldable pub save_key : String → Run (Unit {0})
save_key private_key tc =
    if private_key == ""
    then (done tt, tc)
    else if tc.key_create
    then (if tc.key_write
        then (done tt, record tc { key_file = some private_key })
        else (failed io_error, record tc { key_file = some "" }))
    else (failed io_error, tc)

abbrev pub add_onion_command : AddOnionConfig → Option String → String
add_onion_command conf key =
    "ADD_ONION "
    ++ (key_param key
        ++ (" Port=" ++ (to_string conf.virtual_port ++ ("," ++ to_string conf.target_port))))

unfoldable pub add_v2_onion : AddOnionConfig → Run OnionAddr
unfolding save_key
add_v2_onion conf tc =
    (do
      _ ← send_command (add_onion_command conf tc.key_file)
      response ← read_lines
      let (service_id, private_key) =
          foldl (λ found section. onion_section found (section_of section)) ("", "")
            (sections response)
      _ ← save_key private_key
      give (done (record { port = conf.virtual_port; onion_service = service_id ++ ".onion" })))
      tc

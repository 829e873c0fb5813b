-- ===== src/Capability.antt =====
-- src/bisq/constants.rs: the capabilities of a node, the reasons to close a connection and
-- the nodes of the price feed.
use risq.Base.{
  Bool, true, false, String, ◌≡◌, ◌↔◌, Option, none, some, List, [], ◌∷◌, map, nat_beq,
  if◌then◌else◌, arith,
}
use risq.Base.Int.{ℤ, pos, negsuc}

pub data Capability : Type 0 where
  trade_statistics trade_statistics2 account_age_witness seed_node dao_full_node proposal
        blind_vote :
      Capability
  ack_msg receive_bsq_block dao_state bundle_of_envelopes signed_account_age_witness : Capability
  mediation refund_agent trade_statistics_hash_update : Capability

-- `TryFrom<i32>`
unfoldable pub try_from : ℤ → Option Capability
try_from (pos n) =
    if nat_beq n 0
    then some trade_statistics
    else if nat_beq n 1
    then some trade_statistics2
    else if nat_beq n 2
    then some account_age_witness
    else if nat_beq n 3
    then some seed_node
    else if nat_beq n 4
    then some dao_full_node
    else if nat_beq n 5
    then some proposal
    else if nat_beq n 6
    then some blind_vote
    else if nat_beq n 7
    then some ack_msg
    else if nat_beq n 8
    then some receive_bsq_block
    else if nat_beq n 9
    then some dao_state
    else if nat_beq n 10
    then some bundle_of_envelopes
    else if nat_beq n 11
    then some signed_account_age_witness
    else if nat_beq n 12
    then some mediation
    else if nat_beq n 13
    then some refund_agent
    else if nat_beq n 14
    then some trade_statistics_hash_update
    else none
try_from (negsuc n) = none

-- `as i32`: the place in the enumeration.
unfoldable pub as_i32 : Capability → ℤ
as_i32 trade_statistics = pos 0
as_i32 trade_statistics2 = pos 1
as_i32 account_age_witness = pos 2
as_i32 seed_node = pos 3
as_i32 dao_full_node = pos 4
as_i32 proposal = pos 5
as_i32 blind_vote = pos 6
as_i32 ack_msg = pos 7
as_i32 receive_bsq_block = pos 8
as_i32 dao_state = pos 9
as_i32 bundle_of_envelopes = pos 10
as_i32 signed_account_age_witness = pos 11
as_i32 mediation = pos 12
as_i32 refund_agent = pos 13
as_i32 trade_statistics_hash_update = pos 14

abbrev pub supported_capabilities : List Capability
supported_capabilities =
    trade_statistics ∷ trade_statistics2 ∷ account_age_witness ∷ proposal ∷ blind_vote ∷ ack_msg
    ∷ receive_bsq_block ∷ dao_state ∷ bundle_of_envelopes ∷ signed_account_age_witness ∷ mediation
    ∷ trade_statistics_hash_update ∷ []

-- `LOCAL_CAPABILITIES`
unfoldable pub local_capabilities : List ℤ
unfolding as_i32
local_capabilities = map as_i32 supported_capabilities

pub data CloseConnectionReason : Type 0 where
  socket_closed reset socket_timeout terminated corrupted_data no_proto_buffer_data :
      CloseConnectionReason
  no_proto_buffer_env unknown_exception app_shut_down close_requested_by_peer :
      CloseConnectionReason
  send_msg_failure send_msg_timeout too_many_connections_open : CloseConnectionReason
  too_many_seed_nodes_connected unknown_peer_address rule_violation peer_banned :
      CloseConnectionReason
  invalid_class_received mandatory_capabilities_not_supported : CloseConnectionReason

-- `From<CloseConnectionReason> for String`
unfoldable pub reason_text : CloseConnectionReason → String
reason_text socket_closed = "SOCKET_CLOSED"
reason_text reset = "RESET"
reason_text socket_timeout = "SOCKET_TIMEOUT"
reason_text terminated = "TERMINATED"
reason_text corrupted_data = "CORRUPTED_DATA"
reason_text no_proto_buffer_data = "NO_PROTO_BUFFER_DATA"
reason_text no_proto_buffer_env = "NO_PROTO_BUFFER_ENV"
reason_text unknown_exception = "UNKNOWN_EXCEPTION"
reason_text app_shut_down = "APP_SHUT_DOWN"
reason_text close_requested_by_peer = "CLOSE_REQUESTED_BY_PEER"
reason_text send_msg_failure = "SEND_MSG_FAILURE"
reason_text send_msg_timeout = "SEND_MSG_TIMEOUT"
reason_text too_many_connections_open = "TOO_MANY_CONNECTIONS_OPEN"
reason_text too_many_seed_nodes_connected = "TOO_MANY_SEED_NODES_CONNECTED"
reason_text unknown_peer_address = "UNKNOWN_PEER_ADDRESS"
reason_text rule_violation = "RULE_VIOLATION"
reason_text peer_banned = "PEER_BANNED"
reason_text invalid_class_received = "INVALID_CLASS_RECEIVED"
reason_text mandatory_capabilities_not_supported = "MANDATORY_CAPABILITIES_NOT_SUPPORTED"

-- The nodes of the price feed, in the network of Tor or outside of it.
abbrev pub price_nodes : Bool → List String
price_nodes true =
    "http://xc3nh4juf2hshy7e.onion" ∷ "http://ceaanhbvluug4we6.onion"
    ∷ "http://44mgyoe2b6oqiytt.onion" ∷ "http://62nvujg5iou3vu3i.onion"
    ∷ "http://gztmprecgqjq64zh.onion" ∷ []
price_nodes false = "http://174.138.104.137:8080" ∷ []

-- The numbers that stand for capabilities are read back as such, and no other number is read.
pub try_from-as_i32 : (n : ℤ) (c : Capability) → (try_from n ≡ some c) ↔ (n ≡ as_i32 c)
unfolding try_from as_i32
try_from-as_i32 (pos n) trade_statistics = ground arith
try_from-as_i32 (pos n) trade_statistics2 = ground arith
try_from-as_i32 (pos n) account_age_witness = ground arith
try_from-as_i32 (pos n) seed_node = ground arith
try_from-as_i32 (pos n) dao_full_node = ground arith
try_from-as_i32 (pos n) proposal = ground arith
try_from-as_i32 (pos n) blind_vote = ground arith
try_from-as_i32 (pos n) ack_msg = ground arith
try_from-as_i32 (pos n) receive_bsq_block = ground arith
try_from-as_i32 (pos n) dao_state = ground arith
try_from-as_i32 (pos n) bundle_of_envelopes = ground arith
try_from-as_i32 (pos n) signed_account_age_witness = ground arith
try_from-as_i32 (pos n) mediation = ground arith
try_from-as_i32 (pos n) refund_agent = ground arith
try_from-as_i32 (pos n) trade_statistics_hash_update = ground arith
try_from-as_i32 (negsuc n) trade_statistics = ground arith
try_from-as_i32 (negsuc n) trade_statistics2 = ground arith
try_from-as_i32 (negsuc n) account_age_witness = ground arith
try_from-as_i32 (negsuc n) seed_node = ground arith
try_from-as_i32 (negsuc n) dao_full_node = ground arith
try_from-as_i32 (negsuc n) proposal = ground arith
try_from-as_i32 (negsuc n) blind_vote = ground arith
try_from-as_i32 (negsuc n) ack_msg = ground arith
try_from-as_i32 (negsuc n) receive_bsq_block = ground arith
try_from-as_i32 (negsuc n) dao_state = ground arith
try_from-as_i32 (negsuc n) bundle_of_envelopes = ground arith
try_from-as_i32 (negsuc n) signed_account_age_witness = ground arith
try_from-as_i32 (negsuc n) mediation = ground arith
try_from-as_i32 (negsuc n) refund_agent = ground arith
try_from-as_i32 (negsuc n) trade_statistics_hash_update = ground arith

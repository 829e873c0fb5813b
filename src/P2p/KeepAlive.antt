-- ===== src/P2p/KeepAlive.antt =====
-- src/p2p/peers/keep_alive.rs: the actor that pings the peers which have been silent. The clock's
-- reading and the nonce of each ping are arguments, and so is whether the actor of a connection
-- still runs.
pub mod Silence
pub mod Pings
mod Tests
use risq.Base.{
  ℕ, ◌+◌, ◌-◌, ◌/◌, ◌%◌, Bool, true, false, ◌&&◌, Option, none, some, List, [], ◌∷◌, ◌++◌, map, ltb,
  leb, nat_eq, if◌then◌else◌,
}
use risq.Base.Int.{ℤ, as_u64, as_i32}
use risq.Base.HashMap.{HashMap, get, insert, remove}
use risq.Offer.{from_secs, from_millis}
use risq.P2p.Status.{ConnectionId}
use risq.Payload.Message.{Ping, Pong}

-- `LOOP_INTERVAL_SEC` of a random number, `LOOP_INTERVAL` and `LAST_ACTIVITY_AGE`
abbrev pub loop_interval_sec : ℕ → ℕ
loop_interval_sec random = random % 5 + 30

abbrev pub loop_interval : ℕ → ℕ
loop_interval random = from_secs (loop_interval_sec random)

abbrev pub last_activity_age : ℕ → ℕ
last_activity_age random = from_secs (loop_interval_sec random / 2)

pub record Info : Type 0 where
  pub last_active : ℕ
  pub last_round_trip_time : ℕ

pub record KeepAlive (A : Type 0) : Type 0 where
  pub infos : HashMap ConnectionId Info
  pub connections : HashMap ConnectionId A

-- To the connection at an address: a pong, or a ping of a connection as a request, sent at a time.
pub data Sent (A : Type 0) : Type 0 where
  send_pong : A → Pong → Sent A
  request_ping : ConnectionId → A → ℕ → Ping → Sent A

abbrev pub started : {A : Type 0} → KeepAlive A
started = record { infos = []; connections = [] }

module _ {A : Type 0} where
  -- `Handler<ConnectionAdded>`
  abbrev pub handle_connection_added : ConnectionId → A → KeepAlive A → KeepAlive A
  handle_connection_added id conn k = record k { connections = insert id conn k.connections }

  -- `Handler<ReportLastActive>`
  abbrev pub handle_report_last_active : KeepAlive A → HashMap ConnectionId ℕ
  handle_report_last_active k = map (λ e. (e.0, e.1.last_active)) k.infos

-- `duration_since(…).map(|t| t > age).unwrap_or(false)`
abbrev pub is_silent : ℕ → ℕ → ℕ → Bool
is_silent age now last_active = leb last_active now && ltb age (now - last_active)

-- Whether a peer is to be pinged.
abbrev pub should_ping : ℕ → ℕ → Option Info → Bool
should_ping age now none = true
should_ping age now (some info) = is_silent age now info.last_active

abbrev pub round_trip_millis : Option Info → ℤ
round_trip_millis none = as_i32 0
round_trip_millis (some info) = as_i32 (info.last_round_trip_time / 1_000_000)

module _ {A : Type 0} (upgrade : A → Bool) where
  abbrev pub pong_to : Option A → ℤ → List (Sent A)
  pong_to none nonce = []
  pong_to (some conn) nonce =
      if upgrade conn then send_pong conn (record { request_nonce = nonce }) ∷ [] else []

  -- `Handler<Receive<Ping>>`
  unfoldable pub handle_ping : ℕ → ConnectionId → Ping → KeepAlive A → KeepAlive A × List (Sent A)
  handle_ping now id ping k = (
    record k {
      infos =
          insert id
            (record {
              last_active = now;
              last_round_trip_time = from_millis (as_u64 ping.last_round_trip_time);
            })
            k.infos;
    },
    pong_to (get id k.connections) ping.nonce,
  )

  module _ (age : ℕ) (now : ConnectionId → ℕ) (nonce : ConnectionId → ℤ) where
    abbrev pub ping_of : ConnectionId → Option Info → Ping
    ping_of id info = record { nonce = nonce id; last_round_trip_time = round_trip_millis info }

    -- `ping_peer`: what it sends, and whether the connection stays.
    unfoldable pub ping_peer : ConnectionId → A → Option Info → List (Sent A) × Bool
    ping_peer id conn info =
        if should_ping age (now id) info
        then if upgrade conn
          then (request_ping id conn (now id) (ping_of id info) ∷ [], true)
          else ([], false)
        else ([], true)

    -- The closure of `retain` on an entry, before the rest of the entries.
    abbrev pub keep :
        ConnectionId
        → A
        → List (Sent A) × Bool
        → HashMap ConnectionId A × List (Sent A)
        → HashMap ConnectionId A × List (Sent A)
    keep id conn (out, true) (rest, more) = ((id, conn) ∷ rest, out ++ more)
    keep id conn (out, false) (rest, more) = (rest, out ++ more)

    abbrev pub forget : ConnectionId → Bool → HashMap ConnectionId Info → HashMap ConnectionId Info
    forget id true infos = infos
    forget id false infos = remove id infos

    -- `retain`, with the infos that it leaves.
    unfoldable pub retain :
        HashMap ConnectionId A
        → HashMap ConnectionId Info
        → (HashMap ConnectionId A × List (Sent A)) × HashMap ConnectionId Info
    unfolding ping_peer
    retain [] infos = (([], []), infos)
    retain ((id, conn) ∷ m) infos =
        let pinged = ping_peer id conn (get id infos) in
        let (rest, infos') = retain m (forget id pinged.1 infos) in
        (keep id conn pinged rest, infos')

    -- A round of the timer.
    unfoldable pub tick : KeepAlive A → KeepAlive A × List (Sent A)
    unfolding retain
    tick k =
        let ((connections, sent), infos) = retain k.connections k.infos in
        (record { infos = infos; connections = connections }, sent)

-- The answer to a ping that was sent at a time; `none` is the panic of a clock that was set back.
unfoldable pub on_pong : {A : Type 0} → ConnectionId → ℕ → ℕ → KeepAlive A → Option (KeepAlive A)
on_pong id send_time now k =
    if leb send_time now
    then some (record k {
      infos =
          insert id (record { last_active = now; last_round_trip_time = now - send_time }) k.infos;
    })
    else none

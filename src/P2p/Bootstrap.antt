-- ===== src/P2p/Bootstrap.antt =====
-- src/p2p/bootstrap.rs: the actor that asks a seed node for the data of the network. The future
-- that `started` spawns is a stage of the state; what it waits for is an event. `none` is a panic.
pub mod Trace
pub mod Ends
mod Tests
use risq.Base.{Bool, true, false, Option, none, some, List, [], ◌∷◌, ◌++◌, ◌>>=◌, if◌then◌else◌, ℕ}
use risq.Base.Int.{ℤ}
use risq.Address.{BaseCurrencyNetwork, seed_nodes}
use risq.Capability.{local_capabilities}
use risq.P2p.Status.{ConnectionId, NodeAddress}
use risq.Payload.{Crypto, payload_hash, bisq_hash}
use risq.Payload.Types.{
  ProtectedStorageEntry, WrappedEntry, protected_storage_entry, protected_mailbox_storage_entry,
  StorageEntryWrapper, PersistableNetworkPayload,
}
use risq.Payload.Message.{GetDataResponse}

pub data BootstrapState : Type 0 where
  pre_bootstrap initial_bootstrap_in_progress bootstrapped : BootstrapState

-- What the future of `bootstrap_from_seed` waits for: the connection, the answer to the first
-- request, the local address (with the keys to exclude), the answer to the second request, or the
-- reply of the peers. `failed` is its end with an error, `stopped` that of the actor.
pub data Stage : Type 0 where
  connecting : Stage
  awaiting_preliminary : ConnectionId → Stage
  awaiting_address : ConnectionId → List (List ℕ) → Stage
  awaiting_updated : ConnectionId → Stage
  seeding stopped failed : Stage

-- The connection that is opened, the requests to it (the nonce, the keys to exclude, and the
-- capabilities or the own address), the messages to the dispatcher, and that to the peers.
pub data Sent (F : Type 0) : Type 0 where
  open_connection : NodeAddress → Sent F
  preliminary_get_data : ConnectionId → ℤ → List (List ℕ) → List ℤ → Sent F
  get_updated_data : ConnectionId → NodeAddress → ℤ → List (List ℕ) → Sent F
  dispatched : ConnectionId → GetDataResponse F → Sent F
  seed_connection : NodeAddress → ConnectionId → Sent F

-- `addr_notify` tells whether the sender is there, `addr_rec` has what it sent and the future has
-- not received. `seed` is the address that the future has; `sent` has the earliest first.
pub record Bootstrap (F : Type 0) : Type 0 where
  pub state : BootstrapState
  pub addr_notify : Bool
  pub addr_rec : Option NodeAddress
  pub seed : NodeAddress
  pub stage : Stage
  pub sent : List (Sent F)

pub data Event (F : Type 0) : Type 0 where
  server_started : NodeAddress → Event F
  connected : ConnectionId → Event F
  responded : GetDataResponse F → Event F
  request_failed : Event F
  peers_replied : Event F

-- The nodes of `start` before they are shuffled.
abbrev pub candidates : BaseCurrencyNetwork → Option NodeAddress → List NodeAddress
candidates network none = seed_nodes network
candidates network (some addr) = addr ∷ []

-- `Vec::pop`
abbrev pub last {ℓ} : {A : Type ℓ} → List A → Option A
last [] = none
last (a ∷ []) = some a
last (a ∷ b ∷ as_) = last (b ∷ as_)

-- Whether the future is there to receive the address.
abbrev pub is_listening : Stage → Bool
is_listening connecting = true
is_listening (awaiting_preliminary id) = true
is_listening (awaiting_address id keys) = true
is_listening _ = false

module _ {F : Type 0} where
  -- `started` up to the first wait, on the seed node that it takes.
  abbrev pub begun : NodeAddress → Bootstrap F
  begun addr = record {
    state = initial_bootstrap_in_progress;
    addr_notify = true;
    addr_rec = none;
    seed = addr;
    stage = connecting;
    sent = open_connection addr ∷ [];
  }

  -- `started` on the shuffled nodes.
  unfoldable pub started : List NodeAddress → Option (Bootstrap F)
  started shuffled = do addr ← last shuffled; some (begun addr)

  abbrev pub send : Sent F → Stage → Bootstrap F → Bootstrap F
  send out stage b = record b { sent = b.sent ++ (out ∷ []); stage = stage }

  abbrev pub wrapped_entry : WrappedEntry F → Option (ProtectedStorageEntry F)
  wrapped_entry (protected_storage_entry entry) = some entry
  wrapped_entry (protected_mailbox_storage_entry entry key) = entry

-- Opening the connection or a request to it fails.
abbrev pub on_failure : Stage → Stage
on_failure connecting = failed
on_failure (awaiting_preliminary id) = failed
on_failure (awaiting_updated id) = failed
on_failure stage = stage

abbrev pub on_reply : Stage → Stage
on_reply seeding = stopped
on_reply stage = stage

module _ {F K : Type 0} (c : Crypto F K) where
  abbrev pub entry_key : StorageEntryWrapper F → Option (List ℕ)
  entry_key w = do
    message ← w.message
    entry ← wrapped_entry message
    payload ← entry.storage_payload
    some (payload_hash c payload).inner

  abbrev pub item_key : PersistableNetworkPayload → Option (List ℕ)
  item_key payload = do hash ← bisq_hash c payload; some hash.inner

  -- `map` with a function that may panic, and `collect`.
  abbrev pub collect : {A : Type 0} → (A → Option (List ℕ)) → List A → Option (List (List ℕ))
  collect f [] = some []
  collect f (a ∷ as_) = do key ← f a; keys ← collect f as_; some (key ∷ keys)

  unfoldable pub get_excluded_keys : GetDataResponse F → Option (List (List ℕ))
  get_excluded_keys response = do
    entries ← collect entry_key response.data_set
    items ← collect item_key response.persistable_network_payload_items
    some (entries ++ items)

module _ {F K : Type 0} (c : Crypto F K) (first_nonce second_nonce : ℤ) where
  abbrev pub request_updated :
      ConnectionId → List (List ℕ) → NodeAddress → Bootstrap F → Bootstrap F
  request_updated id keys addr =
      send (get_updated_data id addr second_nonce keys) (awaiting_updated id)

  -- The address comes to the future.
  abbrev pub receive_address : NodeAddress → Stage → Bootstrap F → Bootstrap F
  receive_address addr (awaiting_address id keys) b = request_updated id keys addr b
  receive_address addr _ b = record b { addr_rec = some addr }

  -- `Handler<ServerStarted>`
  unfoldable pub handle_server_started : NodeAddress → Bootstrap F → Option (Bootstrap F)
  handle_server_started addr b =
      if b.addr_notify
      then if is_listening b.stage
        then some (receive_address addr b.stage (record b { addr_notify = false }))
        else none
      else none

  abbrev pub with_address :
      ConnectionId → List (List ℕ) → Option NodeAddress → Bootstrap F → Bootstrap F
  with_address id keys none b = record b { stage = awaiting_address id keys }
  with_address id keys (some addr) b = request_updated id keys addr (record b { addr_rec = none })

  -- The end of the future, and what `started` makes of it.
  abbrev pub finish : ConnectionId → GetDataResponse F → Bootstrap F → Bootstrap F
  finish id response b =
      let end = send (dispatched id response) seeding b in
      send (seed_connection b.seed id) seeding (record end { state = bootstrapped })

  abbrev pub on_response : Stage → GetDataResponse F → Bootstrap F → Option (Bootstrap F)
  on_response (awaiting_preliminary id) response b = do
    keys ← get_excluded_keys c response
    some (
        with_address id keys b.addr_rec
          (send (dispatched id response) (awaiting_address id keys) b))
  on_response (awaiting_updated id) response b = some (finish id response b)
  on_response _ response b = some b

  abbrev pub on_connected : Stage → ConnectionId → Bootstrap F → Bootstrap F
  on_connected connecting id b =
      send (preliminary_get_data id first_nonce [] local_capabilities) (awaiting_preliminary id) b
  on_connected _ id b = b

  unfoldable pub on_event : Event F → Bootstrap F → Option (Bootstrap F)
  unfolding handle_server_started
  on_event (server_started addr) b = handle_server_started addr b
  on_event (connected id) b = some (on_connected b.stage id b)
  on_event (responded response) b = on_response b.stage response b
  on_event request_failed b = some (record b { stage = on_failure b.stage })
  on_event peers_replied b = some (record b { stage = on_reply b.stage })

  unfoldable pub run_events : List (Event F) → Bootstrap F → Option (Bootstrap F)
  unfolding on_event
  run_events [] b = some b
  run_events (e ∷ es) b = do b' ← on_event e b; run_events es b'

-- ===== src/P2p/Bootstrap/Trace.antt =====
-- What src/p2p/bootstrap.rs has sent at each stage, whatever the events and their order.
use risq.Base.{
  ℕ, ◌≡◌, refl, ap, Bool, false, Option, none, some, List, [], ◌∷◌, ◌++◌, >>=-eq-some, subst, arith,
  if◌then◌else◌, some-injective,
}
use risq.Base.Int.{ℤ}
use risq.Capability.{local_capabilities}
use risq.P2p.Status.{ConnectionId, NodeAddress}
use risq.Payload.{Crypto}
use risq.Payload.Message.{GetDataResponse}
use risq.P2p.Bootstrap.{
  BootstrapState, initial_bootstrap_in_progress, bootstrapped, Stage, connecting,
  awaiting_preliminary, awaiting_address, awaiting_updated, seeding, stopped, failed, Sent,
  open_connection, preliminary_get_data, get_updated_data, dispatched, seed_connection, Bootstrap,
  Event, server_started, connected, responded, request_failed, peers_replied, started, is_listening,
  get_excluded_keys, receive_address, handle_server_started, with_address, finish, on_response,
  on_connected, on_failure, on_reply, on_event, run_events, last,
}

guarded :
    {A : Type 0} (p q : Bool) {x y : A}
    → (if p then if q then some x else none else none) ≡ some y
    → x ≡ y
guarded p q e = ground arith

still_going : {s : BootstrapState} → s ≡ initial_bootstrap_in_progress → s ≡ bootstrapped → ⊥
still_going going over = ground arith

module _ {F K : Type 0} (c : Crypto F K) (first_nonce second_nonce : ℤ) where
  -- The sends up to the first request, and after it those up to the second.
  abbrev pub asked : NodeAddress → ConnectionId → List (Sent F)
  asked seed id =
      open_connection seed ∷ preliminary_get_data id first_nonce [] local_capabilities ∷ []

  abbrev pub asked_again :
      NodeAddress → ConnectionId → NodeAddress → List (List ℕ) → GetDataResponse F → List (Sent F)
  asked_again seed id addr keys first =
      asked seed id ++ (dispatched id first ∷ get_updated_data id addr second_nonce keys ∷ [])

  -- All that is sent: both answers of the seed node go to the dispatcher, the second request
  -- excludes just what the first answer held, and then the peers get the connection.
  pub record IsComplete (seed : NodeAddress) (sent : List (Sent F)) : Type 0 where
    pub id : ConnectionId
    pub addr : NodeAddress
    pub keys : List (List ℕ)
    pub first : GetDataResponse F
    pub second : GetDataResponse F
    pub excludes : get_excluded_keys c first ≡ some keys
    pub all :
        sent
        ≡ asked_again seed id addr keys first
          ++ (dispatched id second ∷ seed_connection seed id ∷ [])

  -- The same for each stage.
  abbrev pub Traced : Stage → NodeAddress → BootstrapState → List (Sent F) → Type 0
  Traced connecting seed state sent =
      (state ≡ initial_bootstrap_in_progress) × (sent ≡ open_connection seed ∷ [])
  Traced (awaiting_preliminary id) seed state sent =
      (state ≡ initial_bootstrap_in_progress) × (sent ≡ asked seed id)
  Traced (awaiting_address id keys) seed state sent =
      (state ≡ initial_bootstrap_in_progress)
      × (first : GetDataResponse F) × (get_excluded_keys c first ≡ some keys)
      × (sent ≡ asked seed id ++ (dispatched id first ∷ []))
  Traced (awaiting_updated id) seed state sent =
      (state ≡ initial_bootstrap_in_progress)
      × (addr : NodeAddress) × (keys : List (List ℕ)) × (first : GetDataResponse F)
      × (get_excluded_keys c first ≡ some keys)
      × (sent ≡ asked_again seed id addr keys first)
  Traced seeding seed state sent = (state ≡ bootstrapped) × IsComplete seed sent
  Traced stopped seed state sent = (state ≡ bootstrapped) × IsComplete seed sent
  Traced failed seed state sent = state ≡ initial_bootstrap_in_progress

  abbrev pub IsTraced : Bootstrap F → Type 0
  IsTraced b = Traced b.stage b.seed b.state b.sent

  received :
      (stage : Stage) (addr : NodeAddress) (b : Bootstrap F)
      → IsTraced b
      → Traced stage b.seed b.state b.sent
      → IsTraced (receive_address c first_nonce second_nonce addr stage b)
  received (awaiting_address id keys) addr b t (going, first, excludes, all) =
      let more = get_updated_data id addr second_nonce keys ∷ [] in
      (going, addr, keys, first, excludes, ap (λ l. l ++ more) all)
  received connecting addr b t h = t
  received (awaiting_preliminary id) addr b t h = t
  received (awaiting_updated id) addr b t h = t
  received seeding addr b t h = t
  received stopped addr b t h = t
  received failed addr b t h = t

  on_connected-IsTraced :
      (stage : Stage) (id : ConnectionId) (b : Bootstrap F)
      → IsTraced b
      → Traced stage b.seed b.state b.sent
      → IsTraced (on_connected c first_nonce second_nonce stage id b)
  on_connected-IsTraced connecting id b t (going, all) =
      let more = preliminary_get_data id first_nonce [] local_capabilities ∷ [] in
      (going, ap (λ l. l ++ more) all)
  on_connected-IsTraced (awaiting_preliminary i) id b t h = t
  on_connected-IsTraced (awaiting_address i keys) id b t h = t
  on_connected-IsTraced (awaiting_updated i) id b t h = t
  on_connected-IsTraced seeding id b t h = t
  on_connected-IsTraced stopped id b t h = t
  on_connected-IsTraced failed id b t h = t

  with_address-IsTraced :
      (id : ConnectionId) (keys : List (List ℕ)) (addr : Option NodeAddress) (b : Bootstrap F)
      → Traced (awaiting_address id keys) b.seed b.state b.sent
      → IsTraced (with_address c first_nonce second_nonce id keys addr b)
  with_address-IsTraced id keys none b h = h
  with_address-IsTraced id keys (some addr) b (going, first, excludes, all) =
      let more = get_updated_data id addr second_nonce keys ∷ [] in
      (going, addr, keys, first, excludes, ap (λ l. l ++ more) all)

  finish-IsTraced :
      (id : ConnectionId) (response : GetDataResponse F) (b : Bootstrap F)
      → Traced (awaiting_updated id) b.seed b.state b.sent
      → IsTraced (finish c first_nonce second_nonce id response b)
  finish-IsTraced id response b (going, addr, keys, first, excludes, all) = (
    refl,
    record {
      id = id;
      addr = addr;
      keys = keys;
      first = first;
      second = response;
      excludes = excludes;
      all = ap (λ l. (l ++ (dispatched id response ∷ [])) ++ (seed_connection b.seed id ∷ [])) all;
    },
  )

  on_response-IsTraced :
      (stage : Stage) (response : GetDataResponse F) (b : Bootstrap F) {b' : Bootstrap F}
      → IsTraced b
      → Traced stage b.seed b.state b.sent
      → on_response c first_nonce second_nonce stage response b ≡ some b'
      → IsTraced b'
  on_response-IsTraced (awaiting_preliminary id) response b t (going, all) e =
      let (keys, excludes, made) = >>=-eq-some (get_excluded_keys c response) _ e in
      let more = dispatched id response ∷ [] in
      subst IsTraced (some-injective made) (
        with_address-IsTraced id keys b.addr_rec _
          (going, response, excludes, ap (λ l. l ++ more) all))
  on_response-IsTraced (awaiting_updated id) response b t h e =
      subst IsTraced (some-injective e) (finish-IsTraced id response b h)
  on_response-IsTraced connecting response b t h e = subst IsTraced (some-injective e) t
  on_response-IsTraced (awaiting_address id keys) response b t h e =
      subst IsTraced (some-injective e) t
  on_response-IsTraced seeding response b t h e = subst IsTraced (some-injective e) t
  on_response-IsTraced stopped response b t h e = subst IsTraced (some-injective e) t
  on_response-IsTraced failed response b t h e = subst IsTraced (some-injective e) t

  on_failure-IsTraced :
      (stage : Stage) (b : Bootstrap F)
      → Traced stage b.seed b.state b.sent
      → IsTraced (record b { stage = on_failure stage })
  on_failure-IsTraced connecting b h = h.0
  on_failure-IsTraced (awaiting_preliminary id) b h = h.0
  on_failure-IsTraced (awaiting_address id keys) b h = h
  on_failure-IsTraced (awaiting_updated id) b h = h.0
  on_failure-IsTraced seeding b h = h
  on_failure-IsTraced stopped b h = h
  on_failure-IsTraced failed b h = h

  on_reply-IsTraced :
      (stage : Stage) (b : Bootstrap F)
      → Traced stage b.seed b.state b.sent
      → IsTraced (record b { stage = on_reply stage })
  on_reply-IsTraced seeding b h = h
  on_reply-IsTraced connecting b h = h
  on_reply-IsTraced (awaiting_preliminary id) b h = h
  on_reply-IsTraced (awaiting_address id keys) b h = h
  on_reply-IsTraced (awaiting_updated id) b h = h
  on_reply-IsTraced stopped b h = h
  on_reply-IsTraced failed b h = h

  handle_server_started-IsTraced :
      (addr : NodeAddress) (b : Bootstrap F) {b' : Bootstrap F}
      → IsTraced b
      → handle_server_started c first_nonce second_nonce addr b ≡ some b'
      → IsTraced b'
  unfolding handle_server_started
  handle_server_started-IsTraced addr b t e =
      subst IsTraced (guarded b.addr_notify (is_listening b.stage) e)
        (received b.stage addr (record b { addr_notify = false }) t t)

  on_event-IsTraced :
      (e : Event F) (b : Bootstrap F) {b' : Bootstrap F}
      → IsTraced b
      → on_event c first_nonce second_nonce e b ≡ some b'
      → IsTraced b'
  unfolding on_event
  on_event-IsTraced (server_started addr) b t e = handle_server_started-IsTraced addr b t e
  on_event-IsTraced (connected id) b t e =
      subst IsTraced (some-injective e) (on_connected-IsTraced b.stage id b t t)
  on_event-IsTraced (responded response) b t e = on_response-IsTraced b.stage response b t t e
  on_event-IsTraced request_failed b t e =
      subst IsTraced (some-injective e) (on_failure-IsTraced b.stage b t)
  on_event-IsTraced peers_replied b t e =
      subst IsTraced (some-injective e) (on_reply-IsTraced b.stage b t)

  run_events-IsTraced :
      (es : List (Event F)) (b : Bootstrap F) {b' : Bootstrap F}
      → IsTraced b
      → run_events c first_nonce second_nonce es b ≡ some b'
      → IsTraced b'
  unfolding run_events
  run_events-IsTraced [] b t e = subst IsTraced (some-injective e) t
  run_events-IsTraced (v ∷ vs) b t e =
      let (next, first, rest) = >>=-eq-some (on_event c first_nonce second_nonce v b) _ e in
      run_events-IsTraced vs next (on_event-IsTraced v b t first) rest

  IsComplete-bootstrapped :
      (stage : Stage) (seed : NodeAddress) (state : BootstrapState) (sent : List (Sent F))
      → Traced stage seed state sent
      → state ≡ bootstrapped
      → IsComplete seed sent
  IsComplete-bootstrapped seeding seed state sent t e = t.1
  IsComplete-bootstrapped stopped seed state sent t e = t.1
  IsComplete-bootstrapped connecting seed state sent t e = absurd (still_going t.0 e)
  IsComplete-bootstrapped (awaiting_preliminary id) seed state sent t e = absurd (still_going t.0 e)
  IsComplete-bootstrapped (awaiting_address id keys) seed state sent t e =
      absurd (still_going t.0 e)
  IsComplete-bootstrapped (awaiting_updated id) seed state sent t e = absurd (still_going t.0 e)
  IsComplete-bootstrapped failed seed state sent t e = absurd (still_going t e)

  started-IsTraced :
      (shuffled : List NodeAddress) {b : Bootstrap F} → started shuffled ≡ some b → IsTraced b
  unfolding started
  started-IsTraced shuffled e =
      let (addr, _, made) = >>=-eq-some (last shuffled) _ e in
      subst IsTraced (some-injective made) (refl, refl)

  -- Whatever happens and in whatever order, the state says that the bootstrap is over only once
  -- both requests have been answered and both answers passed on, the second request excluded just
  -- the hashes of what the first answer held, and the peers got the connection; and all this once.
  pub bootstrapped-IsComplete :
      (shuffled : List NodeAddress) (es : List (Event F)) {b0 b : Bootstrap F}
      → started shuffled ≡ some b0
      → run_events c first_nonce second_nonce es b0 ≡ some b
      → b.state ≡ bootstrapped
      → IsComplete b.seed b.sent
  bootstrapped-IsComplete shuffled es {b0} {b} s r e =
      IsComplete-bootstrapped b.stage b.seed b.state b.sent
        (run_events-IsTraced es b0 (started-IsTraced shuffled s) r) e

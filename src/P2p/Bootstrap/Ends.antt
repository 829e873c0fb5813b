-- ===== src/P2p/Bootstrap/Ends.antt =====
-- The bootstrap of src/p2p/bootstrap.rs comes to its end, whenever the server is ready.
use mathlib.Core.List.{Perm}
use mathlib.Core.List.Perm
use risq.Base.{ℕ, ◌≡◌, ◌≢◌, refl, sym, false, Option, none, some, List, [], ◌∷◌, ◌++◌, ◌>>=◌, subst}
use risq.Base.Int.{ℤ}
use risq.Address.{BaseCurrencyNetwork, btc_mainnet, btc_testnet, btc_regtest, seed_nodes}
use risq.P2p.Status.{ConnectionId, NodeAddress}
use risq.Payload.{Crypto}
use risq.Payload.Message.{GetDataResponse}
use risq.P2p.Bootstrap.{
  bootstrapped, stopped, dispatched, seed_connection, Bootstrap, Event, server_started, connected,
  responded, peers_replied, started, begun, candidates, last, get_excluded_keys,
  handle_server_started, on_event, run_events,
}
use risq.P2p.Bootstrap.Trace.{asked_again}

-- When the server starts: before the connection is there, after it, or after the first answer.
pub data Moment : Type 0 where
  early middle late : Moment

module _ {F : Type 0} where
  abbrev pub events :
      Moment → ConnectionId → NodeAddress → GetDataResponse F → GetDataResponse F → List (Event F)
  events early id addr first second =
      server_started addr ∷ connected id ∷ responded first ∷ responded second ∷ peers_replied ∷ []
  events middle id addr first second =
      connected id ∷ server_started addr ∷ responded first ∷ responded second ∷ peers_replied ∷ []
  events late id addr first second =
      connected id ∷ responded first ∷ server_started addr ∷ responded second ∷ peers_replied ∷ []

last-some {ℓ} : {A : Type ℓ} (xs : List A) → xs ≢ [] → (a : A) × (last xs ≡ some a)
last-some [] h = absurd (h refl)
last-some (a ∷ []) h = (a, refl)
last-some (a ∷ b ∷ as_) h = last-some (b ∷ as_) (cc)

candidates-ne-nil :
    (network : BaseCurrencyNetwork) (forced : Option NodeAddress) → candidates network forced ≢ []
unfolding seed_nodes
candidates-ne-nil btc_mainnet none = cc
candidates-ne-nil btc_testnet none = cc
candidates-ne-nil btc_regtest none = cc
candidates-ne-nil network (some addr) = cc

module _ {F K : Type 0} (c : Crypto F K) (first_nonce second_nonce : ℤ) where
  -- The end, with all that was sent.
  abbrev pub ended :
      NodeAddress
      → ConnectionId
      → NodeAddress
      → List (List ℕ)
      → GetDataResponse F
      → GetDataResponse F
      → Bootstrap F
  ended seed id addr keys first second = record {
    state = bootstrapped;
    addr_notify = false;
    addr_rec = none;
    seed = seed;
    stage = stopped;
    sent =
        asked_again c first_nonce second_nonce seed id addr keys first
        ++ (dispatched id second ∷ seed_connection seed id ∷ []);
  }

  events-ended :
      (moment : Moment) (seed addr : NodeAddress) (id : ConnectionId)
      (first second : GetDataResponse F) (keys : List (List ℕ))
      → get_excluded_keys c first ≡ some keys
      → run_events c first_nonce second_nonce (events moment id addr first second) (begun seed)
        ≡ some (ended seed id addr keys first second)
  unfolding run_events on_event handle_server_started
  events-ended early seed addr id first second keys h = rw h refl
  events-ended middle seed addr id first second keys h = rw h refl
  events-ended late seed addr id first second keys h = rw h refl

  -- With any seed node that the shuffled list may give, a bootstrap whose connection opens and
  -- whose requests are answered, the first by data that have hashes, ends in the same state
  -- whenever the server gets its address before the second request: the state says so, and the same
  -- has been sent.
  pub bootstrap_ends :
      (network : BaseCurrencyNetwork) (forced : Option NodeAddress) (shuffled : List NodeAddress)
      (moment : Moment) (addr : NodeAddress) (id : ConnectionId) (first second : GetDataResponse F)
      (keys : List (List ℕ))
      → Perm shuffled (candidates network forced)
      → get_excluded_keys c first ≡ some keys
      → (seed : NodeAddress) × ((started shuffled
            >>= run_events c first_nonce second_nonce (events moment id addr first second))
          ≡ some (ended seed id addr keys first second))
  unfolding started
  bootstrap_ends network forced shuffled moment addr id first second keys p h =
      let some_node : shuffled ≢ [] = λ e.
        candidates-ne-nil network forced
          (sym (Perm.nil-eq (subst (λ l. Perm l (candidates network forced)) e p))) in
      let (seed, found) = last-some shuffled some_node in
      (seed, rw found (events-ended moment seed addr id first second keys h))

-- ===== src/P2p/Bootstrap/Tests.antt =====
-- The bootstrap of src/p2p/bootstrap.rs at work, on answers with small digests.
use mathlib.Core.List.Perm
use risq.Base.{ℕ, ◌≡◌, refl, none, some, List, [], ◌∷◌, false, ◌>>=◌}
use risq.Base.Int.{pos}
use risq.Address.{btc_mainnet, seed_nodes, address}
use risq.P2p.Status.{NodeAddress}
use risq.Payload.{bisq_hash}
use risq.Payload.Types.{protected_storage_entry, account_age_witness}
use risq.Payload.Message.{GetDataResponse}
use risq.Payload.Tests.{sample_crypto, sample_entry, sample_hash}
use risq.P2p.Bootstrap.{
  started, begun, run_events, on_event, handle_server_started, get_excluded_keys, request_failed,
  server_started,
}
use risq.P2p.Bootstrap.Trace.{IsComplete, bootstrapped-IsComplete}
use risq.P2p.Bootstrap.Ends.{late, events, ended, bootstrap_ends}

abbrev response : GetDataResponse ℕ
response = record {
  request_nonce = pos 1;
  is_get_updated_data_response = false;
  data_set = record { message = some (protected_storage_entry (sample_entry 3)) } ∷ [];
  supported_capabilities = [];
  persistable_network_payload_items =
      record { message = some (account_age_witness (8 ∷ []) []) } ∷ [];
}

abbrev keys : List (List ℕ)
keys = sample_hash.inner ∷ (8 ∷ []) ∷ []

response_keys : get_excluded_keys sample_crypto response ≡ some keys
unfolding get_excluded_keys bisq_hash
response_keys = refl

abbrev own : NodeAddress
own = address "own.onion" 9999

abbrev node : NodeAddress
node = address "jhgcy2won7xnslrb.onion" 8000

-- After a failure, the server's address finds no receiver.
unheard :
    run_events sample_crypto (pos 1) (pos 2) (request_failed ∷ server_started own ∷ []) (begun node)
    ≡ none
unfolding run_events on_event handle_server_started
unheard = refl

bootstrapped-IsComplete_example :
    IsComplete sample_crypto
      (pos 1)
      (pos 2)
      node
      (ended sample_crypto (pos 1) (pos 2) node 5 own keys response response).sent
unfolding started run_events on_event handle_server_started get_excluded_keys bisq_hash
bootstrapped-IsComplete_example =
    bootstrapped-IsComplete sample_crypto (pos 1) (pos 2) (node ∷ [])
      (events late 5 own response response) {b0 = begun node}
      {b = ended sample_crypto (pos 1) (pos 2) node 5 own keys response response} refl refl refl

bootstrap_ends_example :
    (seed : NodeAddress) × ((started (node ∷ [])
        >>= run_events sample_crypto (pos 1) (pos 2) (events late 5 own response response))
      ≡ some (ended sample_crypto (pos 1) (pos 2) seed 5 own keys response response))
unfolding seed_nodes
bootstrap_ends_example =
    bootstrap_ends sample_crypto (pos 1) (pos 2) btc_mainnet none (node ∷ []) late own 5 response
      response keys (Perm.refl (node ∷ [])) response_keys

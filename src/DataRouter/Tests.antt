-- ===== src/DataRouter/Tests.antt =====
-- The data router of src/daemon/data_router.rs at work, on messages with small digests.
use risq.Base.{ℕ, ◌≡◌, refl, true, not, Option, none, some, is_some, List, [], ◌∷◌, All}
use risq.Base.Int.{pos}
use risq.Base.HashMap.{get, insert, remove}
use risq.Offer.{sell, fixed, OpenOffer, is_expired, new_offer}
use risq.OfferBook.{add_offer, accepted, handle_add}
use risq.OfferBook
use risq.OfferBook.Tests.{whole_f64, btc_eur}
use risq.Statistics.Tests.{by_insertion}
use risq.Payload.Message.{add_data_message}
use risq.Amount.{new}
use risq.Payload.Types.{account_age_witness, protected_storage_entry}
use risq.Payload.{verify_entry, signing_pub_key_bytes, bisq_hash}
use risq.Payload.Tests.{sample_crypto, sample_entry, sample_hash}
use risq.Currency.{from_code}
use risq.Market.{from_currency_pair}
use risq.Convert.{open_offer, offer_of_payload}
use risq.DataRouter.State.{
  start, Outcome, handle_command_result, DataRouterDispatch, bootstrap, add_data,
  should_deliver_sequenced,
}
use risq.DataRouter.Storage.{
  route_protected_storage_entry, route_storage_entry_wrapper, route_verified, without_owner,
}
use risq.DataRouter.{handle}
use risq.DataRouter.Frame.{entries}
use risq.DataRouter.Authentic.{IsValid, IsAuthentic, handle-IsAuthentic}
use risq.DataRouter.Panics.{malformed, handle-is_some}
use risq.DataRouter.Delivery.{System, initial, received, on_event, run_events, Event}
use risq.DataRouter.Synced.{IsSynced, initial-IsSynced, run_events-IsSynced, add_accepted}

abbrev add_sample : ℕ → DataRouterDispatch ℕ
add_sample n =
    add_data (record {
      entry = some (record { message = some (protected_storage_entry (sample_entry n)) });
    })

abbrev sample_offer : ℕ → Option (OpenOffer ℕ)
unfolding open_offer offer_of_payload from_code from_currency_pair new_offer
sample_offer n = open_offer (without_owner (sample_entry n)) sample_hash

-- What the handler makes of a message, in place of a panic the start.
abbrev outcome_of : Option (Outcome ℕ) → Outcome ℕ
outcome_of none = (start, [])
outcome_of (some o) = o

abbrev added : Outcome ℕ
unfolding handle route_storage_entry_wrapper route_protected_storage_entry route_verified
    should_deliver_sequenced verify_entry signing_pub_key_bytes get insert remove open_offer
    offer_of_payload from_code from_currency_pair new_offer
added = outcome_of (handle sample_crypto whole_f64 10 1 (add_sample 3) start)

-- The same entry again, or an older one, is not let through.
replay : handle sample_crypto whole_f64 20 2 (add_sample 3) added.0 ≡ some (added.0, [])
unfolding added handle route_storage_entry_wrapper route_protected_storage_entry route_verified
    should_deliver_sequenced verify_entry signing_pub_key_bytes get insert remove
replay = refl

start-IsValid : IsValid sample_crypto (start {F = ℕ})
unfolding get
start-IsValid hash info h = cc

handle-IsAuthentic_example :
    IsValid sample_crypto added.0 × All (IsAuthentic sample_crypto (entries (add_sample 3))) added.1
unfolding handle route_storage_entry_wrapper route_protected_storage_entry route_verified
    should_deliver_sequenced verify_entry signing_pub_key_bytes get insert remove open_offer
    offer_of_payload from_code from_currency_pair new_offer
handle-IsAuthentic_example =
    handle-IsAuthentic sample_crypto whole_f64 10 1 (add_sample 3) start {o = added} refl
      start-IsValid

-- A trade whose hash has the wrong length, among the answers to a request for data.
abbrev bad_answer : DataRouterDispatch ℕ
bad_answer = bootstrap [] (record { message = some (account_age_witness (1 ∷ 2 ∷ []) []) } ∷ [])

handle-is_some_example :
    is_some (handle sample_crypto whole_f64 10 1 bad_answer start)
    ≡ not (malformed sample_crypto bad_answer)
handle-is_some_example = handle-is_some sample_crypto whole_f64 10 1 bad_answer start (tt, tt)

-- The router dies of the answer.
bad_answer_panics : malformed sample_crypto bad_answer ≡ true
unfolding bisq_hash
bad_answer_panics = refl

abbrev after_add : System ℕ
after_add = record (initial {F = ℕ}) { router = added.0; queue = added.1 }

abbrev receive_sample : List (Event ℕ)
receive_sample = received 10 1 (add_sample 3) ∷ []

run_events-IsSynced_example : IsSynced after_add
unfolding run_events on_event handle route_storage_entry_wrapper route_protected_storage_entry
    route_verified should_deliver_sequenced verify_entry signing_pub_key_bytes get insert remove
    open_offer offer_of_payload from_code from_currency_pair new_offer
run_events-IsSynced_example =
    run_events-IsSynced sample_crypto whole_f64 by_insertion receive_sample initial {s' = after_add}
      refl initial-IsSynced

abbrev offer_or : Option (OpenOffer ℕ) → OpenOffer ℕ
unfolding new_offer
offer_or none =
    new_offer sample_hash btc_eur "" sell (fixed (new 0 0))
      (record { total = new 0 0; min = new 0 0 }) "" "" 0 (pos 0)
offer_or (some o) = o

abbrev waiting_offer : OpenOffer ℕ
waiting_offer = offer_or (sample_offer 3)

add_accepted_example :
    (OfferBook.handle whole_f64 20 (add_offer waiting_offer) after_add.book).1 ≡ accepted
unfolding run_events on_event handle route_storage_entry_wrapper route_protected_storage_entry
    route_verified should_deliver_sequenced verify_entry signing_pub_key_bytes get insert remove
    open_offer offer_of_payload from_code from_currency_pair new_offer is_expired
add_accepted_example =
    add_accepted sample_crypto whole_f64 by_insertion receive_sample {s = after_add} 20
      waiting_offer
      (handle_command_result 1 (
        add_data_message (record {
          entry = some (record { message = some (protected_storage_entry (sample_entry 3)) });
        })))
      [] refl refl refl

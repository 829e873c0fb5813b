-- ===== src/OfferBook/Tests.antt =====
-- The offer book of src/domain/offer/offer_book.rs at work: the laws at concrete books.
use risq.Base.{ℕ, ◌≡◌, refl, some, List, [], ◌∷◌, ◌+◌, ◌-◌, ◌*◌, ◌/◌, ◌^◌, string_eq}
use risq.Base.Int.{pos, ◌≤ℤ◌}
use risq.Base.HashMap.{get, insert, remove, filter_map}
use risq.F64.{F64}
use risq.Hash.{SequencedMessageHash, sequenced_eq}
use risq.Amount.{new}
use risq.Currency.{currency, fiat, crypto}
use risq.Market.{Market, non_btc_side}
use risq.Offer.{
  OpenOffer, OfferPrice, fixed, market_with_margin, PriceData, sell, is_expired,
  update_display_price, from_secs, would_refresh, refresh,
}
use risq.OfferBook.{
  OfferBook, Command, add_offer, remove_offer, refresh_offer, check_ttl, start, handle, run,
  handle_add, handle_remove, handle_refresh, handle_check_ttl,
}
use risq.OfferBook.Invariant.{IsValid, start-IsValid, handle-IsValid, run-IsValid}
use risq.OfferBook.View.{view, spec_run, view-run}
use risq.OfferBook.Sequence.{expected, Effect, handle_reply, sequence_monotone}

-- Whole numbers in place of floating point.
abbrev pub whole_f64 : F64 ℕ
whole_f64 = record {
  one = 1;
  zero_f64 = 0;
  add = ◌+◌;
  sub = ◌-◌;
  mul = ◌*◌;
  div = ◌/◌;
  from_u64 = λ n. n;
  ten_powf = λ n. 10 ^ n;
  to_u64 = λ x. x;
}

abbrev pub btc_eur : Market
btc_eur = record {
  pair = "btc_eur";
  name = "Bitcoin/Euro";
  left = currency "BTC" "Bitcoin" crypto;
  right = currency "EUR" "Euro" fiat;
}

abbrev hash_of : ℕ → SequencedMessageHash
hash_of n = record { inner = n ∷ [] }

abbrev sample_offer : ℕ → OfferPrice ℕ → OpenOffer ℕ
sample_offer n price = record {
  bisq_hash = hash_of n;
  market = btc_eur;
  id = "offer";
  direction = sell;
  amount = record { total = new 100 8; min = new 10 8 };
  payment_method_id = "SEPA";
  offer_fee_tx_id = "tx";
  created_at = 5;
  display_price = new 7 4;
  latest_sequence = pos 3;
  price = price;
  expires_at = 1000;
}

abbrev pub first_offer : OpenOffer ℕ
first_offer = sample_offer 1 (market_with_margin 2)

abbrev pub second_offer : OpenOffer ℕ
second_offer = sample_offer 2 (fixed (new 7 4))

abbrev euro_price : PriceData ℕ
euro_price = record { currency = btc_eur.right; price = 9000; timestamp = 0; provider = "feed" }

abbrev messages : List (ℕ × Command ℕ)
messages =
    (10, add_offer first_offer)
    ∷ (20, add_offer second_offer)
    ∷ (30, check_ttl (some (("EUR", euro_price) ∷ [])))
    ∷ (40, refresh_offer (hash_of 1) (pos 4))
    ∷ (50, remove_offer second_offer)
    ∷ []

abbrev one_offer : OfferBook ℕ
one_offer = record { open_offers = (hash_of 1, first_offer) ∷ []; price_data = [] }

one_offer-IsValid : IsValid one_offer
unfolding handle handle_add is_expired get insert update_display_price
one_offer-IsValid = handle-IsValid whole_f64 10 (add_offer first_offer) start start-IsValid

run-IsValid_example : IsValid (run whole_f64 messages start)
run-IsValid_example = run-IsValid whole_f64 messages start start-IsValid

view-run_example : view (run whole_f64 messages start) ≡ spec_run whole_f64 messages (view start)
view-run_example = view-run whole_f64 messages start start-IsValid

handle_reply_example :
    ((handle whole_f64 40 (refresh_offer (hash_of 1) (pos 4)) one_offer).1
      ≡ expected whole_f64 40 one_offer (refresh_offer (hash_of 1) (pos 4)))
    × Effect whole_f64 40 one_offer
        (refresh_offer (hash_of 1) (pos 4))
        (handle whole_f64 40 (refresh_offer (hash_of 1) (pos 4)) one_offer).1
        (handle whole_f64 40 (refresh_offer (hash_of 1) (pos 4)) one_offer).0
handle_reply_example = handle_reply whole_f64 40 one_offer (refresh_offer (hash_of 1) (pos 4))

sequence_monotone_example : pos 3 ≤ℤ pos 4
unfolding get handle handle_refresh would_refresh refresh insert
sequence_monotone_example =
    sequence_monotone whole_f64 40 one_offer (refresh_offer (hash_of 1) (pos 4)) (hash_of 1)
      first_offer (record first_offer { latest_sequence = pos 4; expires_at = 40 + from_secs 540 })
      one_offer-IsValid refl refl

-- The messages leave the first offer, refreshed, at the price that the feed gave.
left_over : List (SequencedMessageHash × OpenOffer ℕ)
left_over =
    (
      hash_of 1,
      record first_offer {
        latest_sequence = pos 4;
        expires_at = 40 + from_secs 540;
        display_price = new 270_000_000 4;
      },
    )
    ∷ []

messages_leave : (run whole_f64 messages start).open_offers ≡ left_over
unfolding run handle left_over handle_add handle_remove handle_refresh handle_check_ttl is_expired
    get insert remove filter_map update_display_price would_refresh refresh non_btc_side
messages_leave = refl

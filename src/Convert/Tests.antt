-- ===== src/Convert/Tests.antt =====
-- The conversions of src/daemon/convert.rs on small messages.
use risq.Base.{Option, ℕ, ◌≡◌, refl, true, none, some, is_some, List, [], ◌∷◌}
use risq.Base.Int.{pos}
use risq.Offer.{OpenOffer, new_offer}
use risq.Currency.{from_code}
use risq.Market.{from_currency_pair}
use risq.Payload.Types.{TradeStatistics2, PersistableNetworkPayload, trade_statistics2}
use risq.Payload.{bisq_hash}
use risq.Payload.Tests.{sample_crypto, sample_entry, sample_hash}
use risq.Convert.{open_offer, offer_of_payload}
use risq.Convert.Keeps.{IsOf, open_offer-IsOf}

abbrev offer_of : Option (OpenOffer ℕ) → List (OpenOffer ℕ)
offer_of none = []
offer_of (some o) = o ∷ []

abbrev AllOf : List (OpenOffer ℕ) → Type 0
AllOf [] = ⊥
AllOf (o ∷ os) = IsOf (sample_entry 3) sample_hash o

abbrev sample_stats : TradeStatistics2
sample_stats = record {
  base_currency = "BTC";
  counter_currency = "EUR";
  direction = pos 2;
  trade_price = pos 80_000;
  trade_amount = pos 100;
  trade_date = pos 1;
  payment_method_id = "SEPA";
  offer_id = "offer";
  hash = 9 ∷ [];
  rest = [];
}

abbrev sample_trade : PersistableNetworkPayload
sample_trade = record { message = some (trade_statistics2 sample_stats) }

open_offer-IsOf_example : AllOf (offer_of (open_offer (sample_entry 3) sample_hash))
unfolding open_offer offer_of_payload from_code from_currency_pair new_offer
open_offer-IsOf_example = open_offer-IsOf (sample_entry 3) sample_hash refl

has_hash : is_some (bisq_hash sample_crypto sample_trade) ≡ true
unfolding bisq_hash
has_hash = refl

-- ===== src/PriceFeed/Tests.antt =====
-- The price feed of src/domain/price_feed.rs at concrete prices.
use risq.Base.{ℕ, ◌≡◌, ◌≤◌, refl, [], ◌∷◌, String, string_eq}
use risq.Base.HashMap.{HashMap, get, insert, remove}
use risq.Currency.{currency, fiat}
use risq.Offer.{PriceData}
use risq.PriceFeed.{collect, update_prices}
use risq.PriceFeed.Order.{update_prices-newer}

abbrev euro_at : ℕ → ℕ → PriceData ℕ
euro_at price timestamp = record {
  currency = currency "EUR" "Euro" fiat;
  price = price;
  timestamp = timestamp;
  provider = "feed";
}

abbrev stored_prices : HashMap String (PriceData ℕ)
stored_prices = ("EUR", euro_at 9000 20) ∷ []

-- The response is older than what is stored.
update_prices-newer_example : ((euro_at 9000 20).currency.code ≡ "EUR") × (20 ≤ 20)
unfolding update_prices collect get insert remove
update_prices-newer_example =
    update_prices-newer (euro_at 8000 10 ∷ []) stored_prices "EUR" (euro_at 9000 20)
      (euro_at 9000 20) refl refl refl

-- ===== src/PriceFeed.antt =====
-- src/domain/price_feed.rs: the prices of currencies, as a node of the feed answers.
pub mod Order
pub mod Nodes
mod Tests
use risq.Base.{
  ℕ, String, Bool, Option, none, some, List, [], ◌∷◌, ltb, if◌then◌else◌, ◌==◌, string_eq,
}
use risq.Base.HashMap.{HashMap, get, insert}
use risq.F64.{F64}
use risq.Currency.{Currency, from_code}
use risq.Offer.{PriceData, from_millis}

abbrev pub invalid : String
invalid = "INVALID"

pub record PriceDataRaw (F : Type 0) : Type 0 where
  pub currency_code : String
  pub price : F
  pub timestamp_sec : ℕ
  pub provider : String

module _ {F : Type 0} where
  -- The price of a currency that is not in the table; `none` is the panic of `unwrap`.
  abbrev pub no_price : F64 F → Option Currency → Option (PriceData F)
  no_price f none = none
  no_price f (some euro) =
      some (record { currency = euro; price = f.zero_f64; timestamp = 0; provider = invalid })

  abbrev pub price_of : F64 F → PriceDataRaw F → Option Currency → Option (PriceData F)
  price_of f raw none = no_price f (from_code "EUR")
  price_of f raw (some c) = some (record {
    currency = c;
    price = raw.price;
    timestamp = from_millis raw.timestamp_sec;
    provider = raw.provider;
  })

  -- `From<PriceDataRaw>`
  unfoldable pub from_raw : F64 F → PriceDataRaw F → Option (PriceData F)
  from_raw f raw = price_of f raw (from_code raw.currency_code)

  -- The stored price is kept if it is the newer one.
  abbrev pub newer : Option (PriceData F) → PriceData F → PriceData F
  newer none d = d
  newer (some stored) d = if ltb d.timestamp stored.timestamp then stored else d

  -- The `filter_map` of `update_prices`, collected into a map: a later price of a code replaces an
  -- earlier one.
  unfoldable pub collect :
      HashMap String (PriceData F)
      → List (PriceData F)
      → HashMap String (PriceData F)
      → HashMap String (PriceData F)
  collect old [] new = new
  collect old (d ∷ ds) new =
      let code = d.currency.code in
      let skipped = collect old ds new in
      let kept = collect old ds (insert code (newer (get code old) d) new) in
      if d.provider == invalid then skipped else kept

  -- What `update_prices` does with the response.
  unfoldable pub update_prices :
      List (PriceData F) → HashMap String (PriceData F) → HashMap String (PriceData F)
  update_prices response old = collect old response []

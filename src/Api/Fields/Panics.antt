-- ===== src/Api/Fields/Panics.antt =====
-- Which fields of the answers in src/api/graphql.rs panic.
use risq.Base.{ℕ, String, ◌≡◌, refl, ◌↔◌, true, Option, none, some, arith}
use risq.Base.Int.{ℤ}
use risq.F64.{F64}
use risq.Hash.{SequencedMessageHash}
use risq.Amount.{NumberWithPrecision, div_amount}
use risq.Currency.{is_crypto}
use risq.Market.{Market, non_btc_side}
use risq.Offer.{OpenOffer, OfferDirection, OfferAmount, market_with_margin, new_offer}
use risq.Statistics.Hloc.{Hloc}
use risq.Api.Trades.{map_option}
use risq.Api.BtcOffer.{btc_amount}
use risq.Api.Fields.{formatted, open_offer_fields, hloc_fields}

module _ {F : Type 0} (f : F64 F) where
  map-none : {A B : Type 0} (g : A → B) (o : Option A) → (map_option g o ≡ none) ↔ (o ≡ none)
  map-none g none = ground arith
  map-none g (some a) = ground arith

  div_amount-none : (a b : NumberWithPrecision) → (div_amount f a b ≡ none) ↔ (b.base_amount ≡ 0)
  unfolding div_amount
  div_amount-none a b = ground arith

  -- The average price of a period panics just where the period has no volume.
  pub formatted_avg-none :
      (h : Hloc) → ((hloc_fields f h).formatted_avg ≡ none) ↔ (h.volume_left.base_amount ≡ 0)
  unfolding hloc_fields
  formatted_avg-none h = ground (
    arith,
    map-none formatted (div_amount f h.volume_right h.volume_left),
    div_amount-none h.volume_right h.volume_left,
  )

  -- The amount in Bitcoin of an offer panics just where the market is one of a crypto currency and
  -- the price is zero.
  pub formatted_btc_amount-none :
      (o : OpenOffer F)
      → ((open_offer_fields f o).formatted_btc_amount ≡ none)
        ↔ ((is_crypto (non_btc_side o.market) ≡ true) × (o.display_price.base_amount ≡ 0))
  unfolding open_offer_fields btc_amount
  formatted_btc_amount-none o =
      ground
        (arith, map-none formatted (btc_amount f o), div_amount-none o.amount.total o.display_price)

  -- The price of an offer with a margin is zero until a price of the feed is known for its
  -- currency: in a market of a crypto currency, its amount in Bitcoin panics until then.
  pub unpriced_panics :
      (hash : SequencedMessageHash) (market : Market) (id : String) (direction : OfferDirection)
      (margin : F) (amount : OfferAmount) (method fee_tx : String) (now : ℕ) (sequence : ℤ)
      → is_crypto (non_btc_side market) ≡ true
      → (open_offer_fields f (
          new_offer hash market id direction
            (market_with_margin margin)
            amount
            method
            fee_tx
            now
            sequence)).formatted_btc_amount
        ≡ none
  unfolding new_offer
  unpriced_panics hash market id direction margin amount method fee_tx now sequence crypto =
      (formatted_btc_amount-none (
          new_offer hash market id direction (market_with_margin margin) amount method fee_tx now
            sequence)).1
        (crypto, refl)

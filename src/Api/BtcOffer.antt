-- ===== src/Api/BtcOffer.antt =====
-- src/api/graphql/btc_offer.rs: an offer as one for Bitcoin. Where the market is one of a crypto
-- currency, the offer is turned round.
use risq.Base.{Option, some, if◌then◌else◌}
use risq.F64.{F64}
use risq.Amount.{NumberWithPrecision, mul, div_amount}
use risq.Currency.{is_crypto}
use risq.Market.{non_btc_side}
use risq.Offer.{OpenOffer, OfferDirection, oposite}

module _ {F : Type 0} where
  unfoldable pub btc_direction : OpenOffer F → OfferDirection
  btc_direction offer =
      if is_crypto (non_btc_side offer.market) then oposite offer.direction else offer.direction

  unfoldable pub btc_volume : OpenOffer F → NumberWithPrecision
  btc_volume offer =
      if is_crypto (non_btc_side offer.market)
      then offer.amount.total
      else mul offer.display_price offer.amount.total

  -- `none` is the panic of a division by a price of zero.
  unfoldable pub btc_amount : F64 F → OpenOffer F → Option NumberWithPrecision
  btc_amount f offer =
      if is_crypto (non_btc_side offer.market)
      then div_amount f offer.amount.total offer.display_price
      else some offer.amount.total

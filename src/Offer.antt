-- ===== src/Offer.antt =====
-- src/domain/offer/open_offer.rs, and the `PriceData` of src/domain/price_feed.rs. A `SystemTime`
-- is a number of nanoseconds since UNIX_EPOCH; the clock's reading is an argument.
use risq.Base.{ℕ, ◌+◌, ◌*◌, String, Bool, true, false, none, some, leb, if◌then◌else◌, string_eq}
use risq.Base.Int.{ℤ, ltb_ℤ}
use risq.Base.HashMap.{HashMap, get}
use risq.F64.{F64}
use risq.Hash.{SequencedMessageHash}
use risq.Amount.{NumberWithPrecision, new}
use risq.Currency.{Currency, CurrencyType, fiat, crypto, bisq_internal_precision}
use risq.Market.{Market, non_btc_side}

-- `Duration::from_secs`
abbrev pub from_secs : ℕ → ℕ
from_secs n = n * 1_000_000_000

abbrev pub from_millis : ℕ → ℕ
from_millis n = n * 1_000_000

abbrev pub initial_ttl : ℕ
initial_ttl = from_secs (12 * 60)

abbrev pub refresh_ttl : ℕ
refresh_ttl = from_secs (9 * 60)

pub data OfferDirection : Type 0 where
  buy sell : OfferDirection

abbrev pub oposite : OfferDirection → OfferDirection
oposite buy = sell
oposite sell = buy

pub data OfferPrice (F : Type 0) : Type 0 where
  fixed : NumberWithPrecision → OfferPrice F
  market_with_margin : F → OfferPrice F

pub record OfferAmount : Type 0 where
  pub total : NumberWithPrecision
  pub min : NumberWithPrecision

-- Of src/domain/price_feed.rs.
pub record PriceData (F : Type 0) : Type 0 where
  pub currency : Currency
  pub price : F
  pub timestamp : ℕ
  pub provider : String

pub record OpenOffer (F : Type 0) : Type 0 where
  pub bisq_hash : SequencedMessageHash
  pub market : Market
  pub id : String
  pub direction : OfferDirection
  pub amount : OfferAmount
  pub payment_method_id : String
  pub offer_fee_tx_id : String
  pub created_at : ℕ
  pub display_price : NumberWithPrecision
  -- `OfferSequence`, an `i32`
  pub latest_sequence : ℤ
  pub price : OfferPrice F
  pub expires_at : ℕ

module _ {F : Type 0} where
  abbrev initial_display : OfferPrice F → NumberWithPrecision
  initial_display (fixed price) = price
  initial_display (market_with_margin margin) = new 0 0

  -- `OpenOffer::new`
  unfoldable pub new_offer :
      SequencedMessageHash
      → Market
      → String
      → OfferDirection
      → OfferPrice F
      → OfferAmount
      → String
      → String
      → ℕ
      → ℤ
      → OpenOffer F
  new_offer bisq_hash market id direction price amount payment_method_id offer_fee_tx_id created_at
        sequence =
      record {
        bisq_hash = bisq_hash;
        market = market;
        id = id;
        direction = direction;
        amount = amount;
        payment_method_id = payment_method_id;
        offer_fee_tx_id = offer_fee_tx_id;
        created_at = created_at;
        display_price = initial_display price;
        latest_sequence = sequence;
        price = price;
        expires_at = created_at + initial_ttl;
      }

  -- `expires_at.elapsed().is_ok()`: the clock is at `expires_at` or past it.
  unfoldable pub is_expired : ℕ → OpenOffer F → Bool
  is_expired now offer = leb offer.expires_at now

  unfoldable pub would_refresh : OpenOffer F → ℤ → Bool
  would_refresh offer sequence = ltb_ℤ offer.latest_sequence sequence

  unfoldable pub refresh : ℕ → OpenOffer F → ℤ → OpenOffer F × Bool
  refresh now offer sequence =
      if ltb_ℤ offer.latest_sequence sequence
      then (record offer { expires_at = now + refresh_ttl; latest_sequence = sequence }, true)
      else (offer, false)

  module _ (f : F64 F) where
    -- The margin counts against the price of a crypto offer to sell and of a fiat offer to buy.
    abbrev pub factor : CurrencyType → OfferDirection → F → F
    factor crypto sell margin = f.sub f.one margin
    factor fiat buy margin = f.sub f.one margin
    factor _ _ margin = f.add f.one margin

    abbrev pub display : OfferDirection → F → PriceData F → NumberWithPrecision
    display direction margin d =
        let precision = bisq_internal_precision d.currency in
        new
          (f.to_u64 (
            f.mul (f.mul (factor d.currency.currency_type direction margin) d.price)
              (f.ten_powf precision)))
          precision

    abbrev display_or :
        OpenOffer F → OfferPrice F → HashMap String (PriceData F) → NumberWithPrecision
    display_or offer (fixed price) price_data = offer.display_price
    display_or offer (market_with_margin margin) price_data =
        elim (get (non_btc_side offer.market).code price_data) [
          | none ↦ offer.display_price
          | some d ↦ display offer.direction margin d
        ]

    unfoldable pub update_display_price : OpenOffer F → HashMap String (PriceData F) → OpenOffer F
    update_display_price offer price_data = record offer {
      display_price = display_or offer offer.price price_data;
    }

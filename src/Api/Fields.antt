-- ===== src/Api/Fields.antt =====
-- The fields of the answers in src/api/graphql.rs: what the resolvers of each type give. Numbers
-- are formatted with eight decimals.
pub mod Panics
use risq.Base.{ℕ, ◌/◌, String, Option, List}
use risq.Base.Int.{ℤ, pos, as_i32}
use risq.F64.{F64}
use risq.Amount.{NumberWithPrecision, format, mul, div_amount}
use risq.Currency.{Currency, CurrencyType, fiat, crypto}
use risq.Market.{Market}
use risq.Offer.{OpenOffer}
use risq.Statistics.Trade.{Trade}
use risq.Statistics.Hloc.{Hloc}
use risq.Statistics.Volume.{Volume}
use risq.Statistics.Ticker.{Ticker}
use risq.Api.Scalars.{Direction, direction_from, unix_millis, unix_secs}
use risq.Api.Offers.{target_precision}
use risq.Api.BtcOffer.{btc_direction, btc_volume, btc_amount}
use risq.Api.Trades.{map_option}

abbrev pub Formatted : Type 0
Formatted = List ℕ

unfoldable pub formatted : NumberWithPrecision → Formatted
formatted n = format n target_precision

pub record TradeFields : Type 0 where
  pub market_pair : String
  pub direction : Direction
  pub offer_id : String
  pub payment_method_id : String
  pub formatted_price : Formatted
  pub formatted_amount : Formatted
  pub formatted_volume : Formatted
  pub trade_date : String

unfoldable pub trade_fields : Trade → TradeFields
unfolding formatted
trade_fields t = record {
  market_pair = t.market.pair;
  direction = direction_from t.direction;
  offer_id = t.offer_id;
  payment_method_id = t.payment_method_id;
  formatted_price = formatted t.price;
  formatted_amount = formatted t.amount;
  formatted_volume = formatted t.volume;
  trade_date = unix_millis t.timestamp;
}

-- The date and time of `period_start_date_time` are those of a number of seconds. The average is
-- none where the division panics.
pub record HlocFields : Type 0 where
  pub period_start : String
  pub period_start_date_time : ℕ
  pub formatted_high : Formatted
  pub formatted_low : Formatted
  pub formatted_open : Formatted
  pub formatted_close : Formatted
  pub formatted_volume_left : Formatted
  pub formatted_volume_right : Formatted
  pub formatted_avg : Option Formatted

unfoldable pub hloc_fields : {F : Type 0} → F64 F → Hloc → HlocFields
unfolding formatted
hloc_fields f h = record {
  period_start = unix_secs h.period_start;
  period_start_date_time = h.period_start / 1_000_000_000;
  formatted_high = formatted h.high;
  formatted_low = formatted h.low;
  formatted_open = formatted h.open_price;
  formatted_close = formatted h.close;
  formatted_volume_left = formatted h.volume_left;
  formatted_volume_right = formatted h.volume_right;
  formatted_avg = map_option formatted (div_amount f h.volume_right h.volume_left);
}

pub record VolumeFields : Type 0 where
  pub period_start : String
  pub period_start_date_time : ℕ
  pub formatted_volume : Formatted
  pub num_trades : ℤ

unfoldable pub volume_fields : Volume → VolumeFields
unfolding formatted
volume_fields v = record {
  period_start = unix_secs v.period_start;
  period_start_date_time = v.period_start / 1_000_000_000;
  formatted_volume = formatted v.volume;
  num_trades = as_i32 v.num_trades;
}

-- `CurrencyType::to_lowercase`
abbrev pub type_lower_case : CurrencyType → String
type_lower_case fiat = "fiat"
type_lower_case crypto = "crypto"

pub record CurrencyFields : Type 0 where
  pub code : String
  pub name : String
  pub precision : ℤ
  pub currency_type_lower_case : String

unfoldable pub currency_fields : Currency → CurrencyFields
currency_fields c = record {
  code = c.code;
  name = c.name;
  precision = pos target_precision;
  currency_type_lower_case = type_lower_case c.currency_type;
}

pub record MarketFields : Type 0 where
  pub pair : String
  pub name : String
  pub l_name : String
  pub r_name : String
  pub l_symbol : String
  pub r_symbol : String
  pub l_precision : ℤ
  pub r_precision : ℤ
  pub l_type_lower_case : String
  pub r_type_lower_case : String

unfoldable pub market_fields : Market → MarketFields
market_fields m = record {
  pair = m.pair;
  name = m.name;
  l_name = m.left.name;
  r_name = m.right.name;
  l_symbol = m.left.code;
  r_symbol = m.right.code;
  l_precision = pos target_precision;
  r_precision = pos target_precision;
  l_type_lower_case = type_lower_case m.left.currency_type;
  r_type_lower_case = type_lower_case m.right.currency_type;
}

pub record OpenOfferFields : Type 0 where
  pub market_pair : String
  pub id : String
  pub direction : Direction
  pub btc_direction : Direction
  pub payment_method_id : String
  pub offer_fee_tx_id : String
  pub offer_date : String
  pub formatted_amount : Formatted
  pub formatted_btc_amount : Option Formatted
  pub formatted_min_amount : Formatted
  pub formatted_price : Formatted
  pub formatted_volume : Formatted
  pub formatted_btc_volume : Formatted

-- The amount in Bitcoin is none where it panics.
unfoldable pub open_offer_fields : {F : Type 0} → F64 F → OpenOffer F → OpenOfferFields
unfolding formatted
open_offer_fields f o = record {
  market_pair = o.market.pair;
  id = o.id;
  direction = direction_from o.direction;
  btc_direction = direction_from (btc_direction o);
  payment_method_id = o.payment_method_id;
  offer_fee_tx_id = o.offer_fee_tx_id;
  offer_date = unix_millis o.created_at;
  formatted_amount = formatted o.amount.total;
  formatted_btc_amount = map_option formatted (btc_amount f o);
  formatted_min_amount = formatted o.amount.min;
  formatted_price = formatted o.display_price;
  formatted_volume = formatted (mul o.display_price o.amount.total);
  formatted_btc_volume = formatted (btc_volume o);
}

pub record TickerFields : Type 0 where
  pub market_pair : String
  pub formatted_last : Option Formatted
  pub formatted_high : Option Formatted
  pub formatted_low : Option Formatted
  pub formatted_volume_left : Formatted
  pub formatted_volume_right : Formatted
  pub formatted_buy : Option Formatted
  pub formatted_sell : Option Formatted

unfoldable pub ticker_fields : Ticker → TickerFields
unfolding formatted
ticker_fields k = record {
  market_pair = k.market.pair;
  formatted_last = map_option formatted k.last;
  formatted_high = map_option formatted k.high;
  formatted_low = map_option formatted k.low;
  formatted_volume_left = formatted k.volume_left;
  formatted_volume_right = formatted k.volume_right;
  formatted_buy = map_option formatted k.buy;
  formatted_sell = map_option formatted k.sell;
}

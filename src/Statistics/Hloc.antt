-- ===== src/Statistics/Hloc.antt =====
-- src/domain/statistics/hloc.rs: the prices of a market by periods. The clock's reading is an
-- argument.
pub mod Range
pub mod Candles
use Prim.Native.Nat.{lt, eq, gt}
use risq.Base.{
  ℕ, String, Bool, Ordering, max, Option, none, some, List, [], filter, ◌==◌, string_eq,
}
use risq.Amount.{NumberWithPrecision, new, add_assign, cmp}
use risq.Market.{Market}
use risq.Statistics.Trade.{Trade, TradeHistory, first_trade_time}
use risq.Statistics.Interval.{Interval, Chrono, default_for_range, intervals}
use risq.Statistics.Buckets.{per_period}

pub record Hloc : Type 0 where
  pub period_start : ℕ
  pub high : NumberWithPrecision
  pub low : NumberWithPrecision
  pub open_price : NumberWithPrecision
  pub close : NumberWithPrecision
  pub volume_left : NumberWithPrecision
  pub volume_right : NumberWithPrecision

pub record HlocQuery : Type 0 where
  pub market : Market
  pub timestamp_from : Option ℕ
  pub timestamp_to : Option ℕ
  pub interval : Option Interval

-- `Ord::max`, which takes the second of two equal numbers.
unfoldable pub max_price : NumberWithPrecision → NumberWithPrecision → NumberWithPrecision
max_price a b = elim (cmp a b) [ lt ↦ b | eq ↦ b | gt ↦ a ]

-- `Ord::min`, which takes the first of two equal numbers.
unfoldable pub min_price : NumberWithPrecision → NumberWithPrecision → NumberWithPrecision
min_price a b = elim (cmp a b) [ lt ↦ a | eq ↦ a | gt ↦ b ]

-- A period before its first trade is summed up.
abbrev pub init : ℕ → Trade → Hloc
init period_start trade = record {
  period_start = period_start;
  high = trade.price;
  low = trade.price;
  open_price = trade.price;
  close = trade.price;
  volume_left = new 0 4;
  volume_right = new 0 4;
}

-- One round of the inner loop.
abbrev pub step : Hloc → Trade → Hloc
step current trade = record current {
  high = max_price current.high trade.price;
  low = min_price current.low trade.price;
  close = trade.price;
  volume_left = add_assign current.volume_left trade.amount;
  volume_right = add_assign current.volume_right trade.volume;
}

abbrev pub unwrap_or {ℓ} : {A : Type ℓ} → Option A → A → A
unwrap_or none a = a
unwrap_or (some b) a = b

abbrev pub of_market : Market → Trade → Bool
of_market market t = t.market.pair == market.pair

module _ {T : Type 0} (c : Chrono T) (now : ℕ) where
  -- The body of `from_trades` from the time of the first trade on.
  abbrev pub from_first : ℕ → TradeHistory → HlocQuery → Option (List Hloc)
  from_first first history query =
      let from = max first (unwrap_or query.timestamp_from 0) in
      let to = max from (unwrap_or query.timestamp_to now) in
      let interval = unwrap_or query.interval (default_for_range from to) in
      per_period init step (intervals c interval from to) (filter (of_market query.market) history)

  -- `Hloc::from_trades`; `none` is a panic in `intervals`.
  unfoldable pub from_trades : TradeHistory → HlocQuery → Option (List Hloc)
  from_trades history query = elim (first_trade_time history) [
    | none ↦ some []
    | some first ↦ from_first first history query
  ]

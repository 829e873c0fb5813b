-- ===== src/Statistics/Volume.antt =====
-- src/domain/statistics/volume.rs: the traded volume by periods. The clock's reading is an
-- argument.
pub mod Count
pub mod Total
use risq.Base.{
  ℕ, ◌+◌, ◌%◌, Bool, true, Option, none, some, List, [], filter, ◌==◌, string_eq, if◌then◌else◌,
}
use risq.Amount.{NumberWithPrecision, zero_amount, add_assign, u32_mod}
use risq.Currency.{is_crypto}
use risq.Market.{Market, non_btc_side}
use risq.Statistics.Trade.{Trade, TradeHistory, first_trade_time}
use risq.Statistics.Interval.{Interval, year, Chrono, intervals}
use risq.Statistics.Buckets.{per_period}
use risq.Statistics.Hloc.{unwrap_or, of_market}

pub record Volume : Type 0 where
  pub period_start : ℕ
  pub volume : NumberWithPrecision
  pub num_trades : ℕ

abbrev pub empty_volume : ℕ → Trade → Volume
empty_volume period_start trade = record {
  period_start = period_start;
  volume = zero_amount;
  num_trades = 0;
}

-- One round of the inner loop.
abbrev pub add_trade : Volume → Trade → Volume
add_trade current trade = record current {
  volume =
      add_assign current.volume
        (if is_crypto (non_btc_side trade.market) then trade.volume else trade.amount);
  num_trades = (current.num_trades + 1) % u32_mod;
}

abbrev pub in_market : Option Market → Trade → Bool
in_market none t = true
in_market (some m) t = of_market m t

module _ {T : Type 0} (c : Chrono T) (now : ℕ) where
  -- `Volume::from_trades`; `none` is a panic in `intervals`.
  unfoldable pub volumes : TradeHistory → Option Market → Option Interval → Option (List Volume)
  volumes history market interval = elim (first_trade_time history) [
    | none ↦ some []
    | some first ↦
        per_period empty_volume add_trade (intervals c (unwrap_or interval year) first now)
          (filter (in_market market) history)
  ]

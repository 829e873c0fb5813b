-- ===== src/Statistics/Queries.antt =====
-- The queries of `StatsCacheInner` in src/domain/statistics.rs, behind the read lock.
use risq.Base.{ℕ, Option, List}
use risq.Market.{Market}
use risq.Offer.{OpenOffer}
use risq.Statistics.Trade.{TradeHistory}
use risq.Statistics.Cache.{StatsCache}
use risq.Statistics.Interval.{Interval, Chrono}
use risq.Statistics.Hloc.{Hloc, HlocQuery}
use risq.Statistics.Hloc
use risq.Statistics.Volume.{Volume}
use risq.Statistics.Volume
use risq.Statistics.Ticker.{Ticker, PairSort}
use risq.Statistics.Ticker

-- In the order of time, from either end.
abbrev pub trades : StatsCache → TradeHistory
trades cache = cache.trades

module _ {T : Type 0} (c : Chrono T) (now : ℕ) where
  unfoldable pub hloc : HlocQuery → StatsCache → Option (List Hloc)
  hloc query cache = Hloc.from_trades c now cache.trades query

  unfoldable pub volumes : Option Market → Option Interval → StatsCache → Option (List Volume)
  volumes market interval cache = Volume.volumes c now cache.trades market interval

module _ {F : Type 0} (by_pair : PairSort) (now : ℕ) where
  unfoldable pub ticker : Option Market → List (OpenOffer F) → StatsCache → List Ticker
  ticker market offers cache = Ticker.from_trades by_pair now cache.trades market offers

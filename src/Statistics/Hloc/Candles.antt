-- ===== src/Statistics/Hloc/Candles.antt =====
-- All prices that `Hloc::from_trades` of src/domain/statistics/hloc.rs gives.
use risq.Base.{ℕ, ◌≡◌, ◌≢◌, ◌≤◌, max, Option, none, some, List, [], ◌∷◌, filter, All, arith}
use risq.Market.{Market}
use risq.Statistics.Trade.{Trade, first_trade_time}
use risq.Statistics.History.{IsOrdered}
use risq.Statistics.Interval.{
  Interval, half_hour, half_day, Chrono, appropriate_floor, add_interval, intervals,
}
use risq.Statistics.Interval.Floor.{IsChrono}
use risq.Statistics.Interval.Windows.{Covers, intervals_tile}
use risq.Statistics.Buckets.{per_period}
use risq.Statistics.Buckets.Chart.{Chart, Chart-nil}
use risq.Statistics.Buckets.Laws.{filter-IsOrdered}
use risq.Statistics.Hloc.{Hloc, init, step, unwrap_or, of_market, from_trades}
use risq.Statistics.Hloc.Range.{HasPrecision, IsCandle, buckets-Chart}
use risq.Statistics.Volume.Count.{Tiles-order}

-- A result, for periods that are there: the candles of just those periods that have a trade.
abbrev pub Candles : ℕ → List Trade → Option (List (ℕ × ℕ)) → Option (List Hloc) → Type 0
Candles p ts none result = ⊥
Candles p ts (some ws) none = ⊥
Candles p ts (some ws) (some hs) = Chart (IsCandle p) ts ws hs

per_period-Candles :
    (p start end : ℕ) (o : Option (List (ℕ × ℕ))) (ts : List Trade)
    → Covers start end o
    → IsOrdered ts
    → All (λ t. HasPrecision p t.price) ts
    → Candles p ts o (per_period init step o ts)
unfolding per_period
per_period-Candles p start end none ts h o a = absurd h
per_period-Candles p start end (some ws) [] h o a = Chart-nil (IsCandle p) ws
per_period-Candles p start end (some ws) (t ∷ ts) (first, before, tiles) o a =
    buckets-Chart p first ws (t ∷ ts) (Tiles-order first end ws tiles) o a

-- The span of a query: not before the first trade, and not empty.
abbrev pub span_start : ℕ → Option ℕ → ℕ
span_start first timestamp_from = max first (unwrap_or timestamp_from 0)

abbrev pub span_end : ℕ → ℕ → Option ℕ → Option ℕ → ℕ
span_end now first timestamp_from timestamp_to =
    max (span_start first timestamp_from) (unwrap_or timestamp_to now)

module _ {T : Type 0} (c : Chrono T) {last_time : ℕ} (laws : IsChrono c last_time) where
  -- Under the laws of `chrono`, for an interval that is not a half hour or a half day, a history in
  -- the order of time, prices of the market with the precision p, and a calendar that reaches the
  -- ends of the span and of the last period: the query does not panic. It answers one candle for
  -- each of the periods of the query's span in which the market has a trade, in their order, and no
  -- other: it opens and closes with the prices of the period's first and last trade, and its low
  -- and its high are prices of the period's trades, of which none is lower or higher.
  pub from_trades-Candles :
      (p now : ℕ) (t : Trade) (ts : List Trade) (market : Market) (from to : Option ℕ)
      (i : Interval) (floor last : T)
      → i ≢ half_hour
      → i ≢ half_day
      → appropriate_floor c i (c.from_timestamp (span_end now t.timestamp from to)) ≡ some floor
      → add_interval c floor i ≡ some last
      → c.timestamp last ≤ last_time
      → span_end now t.timestamp from to ≤ last_time
      → IsOrdered (t ∷ ts)
      → All (λ u. HasPrecision p u.price) (filter (of_market market) (t ∷ ts))
      → Candles p
          (filter (of_market market) (t ∷ ts))
          (intervals c i (span_start t.timestamp from) (span_end now t.timestamp from to))
          (from_trades c now (t ∷ ts) (record {
            market = market;
            timestamp_from = from;
            timestamp_to = to;
            interval = some i;
          }))
  unfolding from_trades first_trade_time
  from_trades-Candles p now t ts market from to i floor last no_half no_day floored added reach ends
        o a =
      let start = span_start t.timestamp from in
      let end = span_end now t.timestamp from to in
      per_period-Candles p start (c.timestamp last) (intervals c i start end)
        (filter (of_market market) (t ∷ ts))
        (intervals_tile c laws i start end floor last no_half no_day floored added reach
          (omega (arith, ends)))
        (filter-IsOrdered (of_market market) (t ∷ ts) o) a

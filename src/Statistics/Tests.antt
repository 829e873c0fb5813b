-- ===== src/Statistics/Tests.antt =====
-- The laws of src/domain/statistics/ at concrete trades, in the calendar of 30-day months.
use mathlib.Core.List.{Perm}
use mathlib.Core.List.Perm
use risq.Base.{ℕ, String, string_eq, ◌≡◌, ◌+◌, ◌*◌, refl, none, some, List, [], ◌∷◌, filter, arith}
use risq.Amount.{new}
use risq.Currency.{currency, crypto, fiat}
use risq.Market.{Market}
use risq.Offer.{buy}
use risq.Statistics.Trade.{Trade, TradeHistory}
use risq.Statistics.Trade
use risq.Statistics.History.{IsOrdered, insert-perm, insert-IsOrdered}
use risq.Statistics.Cache.{
  new_cache, new_cache-IsValid, bootstrap, TradeSort, IsValid, bootstrap-IsValid,
}
use risq.Statistics.Interval.{
  day, appropriate_floor, floor_minute, floor_hour, add_interval, intervals,
}
use risq.Statistics.Interval.Windows.{Covers, intervals_tile}
use risq.Statistics.Buckets.{buckets}
use risq.Statistics.Buckets.Laws.{summaries, buckets-eq-summaries}
use risq.Statistics.Hloc.{init, step, of_market, from_trades}
use risq.Statistics.Hloc.Candles.{Candles, span_start, span_end, from_trades-Candles}
use risq.Statistics.Volume.{in_market, volumes}
use risq.Statistics.Volume.Total.{Counts, volumes-Counts}
use risq.Statistics.Calendar.{calendar, calendar-IsChrono}

abbrev pub sample_market : Market
sample_market = record {
  pair = "btc_eur";
  name = "Bitcoin/Euro";
  left = currency "BTC" "Bitcoin" crypto;
  right = currency "EUR" "Euro" fiat;
}

abbrev sample_trade : String → ℕ → ℕ → Trade
sample_trade offer_id price timestamp = record {
  market = sample_market;
  direction = buy;
  offer_id = offer_id;
  price = new price 4;
  amount = new 100 8;
  volume = new 7 4;
  payment_method_id = "SEPA";
  timestamp = timestamp;
  hash = record { inner = timestamp ∷ [] };
}

abbrev pub early : Trade
early = sample_trade "a" 90 100

abbrev middle : Trade
middle = sample_trade "b" 95 150

abbrev pub late : Trade
late = sample_trade "c" 85 250

abbrev pub history : TradeHistory
history = early ∷ middle ∷ late ∷ []

pub history-IsOrdered : IsOrdered history
history-IsOrdered = omega arith

insert-perm_example : Perm (Trade.insert (early ∷ late ∷ []) middle) (middle ∷ early ∷ late ∷ [])
insert-perm_example = insert-perm (early ∷ late ∷ []) middle

-- Sorting by insertion.
unfoldable pub insertion_sort : List Trade → TradeHistory
insertion_sort [] = []
insertion_sort (t ∷ ts) = Trade.insert (insertion_sort ts) t

pub insertion_sort-IsOrdered : (ts : List Trade) → IsOrdered (insertion_sort ts)
unfolding insertion_sort
insertion_sort-IsOrdered [] = tt
insertion_sort-IsOrdered (t ∷ ts) =
    insert-IsOrdered (insertion_sort ts) t (insertion_sort-IsOrdered ts)

pub insertion_sort-perm : (ts : List Trade) → Perm (insertion_sort ts) ts
unfolding insertion_sort
insertion_sort-perm [] = Perm.refl []
insertion_sort-perm (t ∷ ts) =
    Perm.trans (insert-perm (insertion_sort ts) t) (Perm.cons t (insertion_sort-perm ts))

abbrev pub by_insertion : TradeSort
by_insertion = record {
  sort = insertion_sort;
  ordered = insertion_sort-IsOrdered;
  perm = insertion_sort-perm;
}

bootstrap-IsValid_example : IsValid (bootstrap by_insertion (late ∷ early ∷ late ∷ []) new_cache)
bootstrap-IsValid_example =
    bootstrap-IsValid by_insertion (late ∷ early ∷ late ∷ []) new_cache new_cache-IsValid

-- A time at 10 minutes past 1 o'clock, in nanoseconds.
abbrev ten_past_one : ℕ
ten_past_one = 4_200_000_000_000

-- The tenth day of the calendar, at 10 minutes past 1 o'clock.
abbrev tenth_day : ℕ
tenth_day = 9 * 86_400_000_000_000 + 4_200_000_000_000

-- A day later the first period starts at 0 and the second one ends the second day.
intervals_tile_example :
    Covers ten_past_one 172_800_000_000_000
      (intervals calendar day ten_past_one (ten_past_one + 86_400_000_000_000))
unfolding appropriate_floor floor_minute floor_hour add_interval
intervals_tile_example =
    intervals_tile calendar (calendar-IsChrono 172_800_000_000_000) day ten_past_one
      (ten_past_one + 86_400_000_000_000) 86_400_000_000_000 172_800_000_000_000 (λ e. cc) (λ e. cc)
      refl refl (omega arith) (omega arith)

abbrev periods : List (ℕ × ℕ)
periods = (100, 200) ∷ (200, 300) ∷ []

buckets-eq-summaries_example :
    buckets init step periods history ≡ summaries init step periods history
buckets-eq-summaries_example =
    buckets-eq-summaries init step 100 periods history (omega arith) history-IsOrdered

volumes-Counts_example :
    Counts
      (filter (in_market (some sample_market)) history)
      (intervals calendar day 100 300)
      (volumes calendar 300 history (some sample_market) (some day))
unfolding appropriate_floor floor_minute floor_hour add_interval
volumes-Counts_example =
    volumes-Counts calendar (calendar-IsChrono 86_400_000_000_300) 300 early (middle ∷ late ∷ [])
      (some sample_market) day 300 86_400_000_000_300 (λ e. cc) (λ e. cc) refl refl (omega arith)
      history-IsOrdered (omega arith) (omega arith)

from_trades-Candles_example :
    Candles 4
      (filter (of_market sample_market) history)
      (intervals calendar day (span_start 100 none) (span_end 300 100 none none))
      (from_trades calendar 300 history (record {
        market = sample_market;
        timestamp_from = none;
        timestamp_to = none;
        interval = some day;
      }))
unfolding appropriate_floor floor_minute floor_hour add_interval
from_trades-Candles_example =
    from_trades-Candles calendar (calendar-IsChrono 86_400_000_000_300) 4 300 early
      (middle ∷ late ∷ []) sample_market none none day 300 86_400_000_000_300 (λ e. cc) (λ e. cc)
      refl refl (omega arith) (omega arith) history-IsOrdered (refl, (refl, (refl, tt)))

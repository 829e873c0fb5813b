-- ===== src/Api/Trades.antt =====
-- The queries on trades of src/api/graphql.rs, with the feature `statistics`. The clock's reading
-- is an argument. `none` is a panic.
pub mod Page
use risq.Base.{
  ℕ, String, string_eq, Bool, ◌&&◌, Option, none, some, List, reverse, filter, take, min, leb, ltb,
  ◌>>=◌,
}
use Prim.Native.String.{◌++◌}
use risq.Base.HashMap.{HashMap}
use risq.Base.Int.{ℤ, as_usize}
use risq.Hash.{SequencedMessageHash}
use risq.Market.{Market, from_pair}
use risq.Offer.{OpenOffer}
use risq.Statistics.Trade.{Trade, TradeHistory}
use risq.Statistics.Interval.{Chrono}
use risq.Statistics.Hloc.{Hloc, unwrap_or}
use risq.Statistics.Hloc
use risq.Statistics.Volume.{Volume, volumes}
use risq.Statistics.Ticker.{Ticker, PairSort}
use risq.Statistics.Ticker
use risq.Api.Scalars.{Direction, Sort, asc, desc, ApiInterval, interval_from, read_time}
use risq.Api.Offers.{in_pair, in_direction, values}

abbrev pub between : ℕ → ℕ → Trade → Bool
between first last t = leb first t.timestamp && ltb t.timestamp last

-- The filters of `field_trades`.
abbrev pub wanted_trades : ℕ → ℕ → Option String → Option Direction → TradeHistory → List Trade
wanted_trades first last market direction trades =
    filter (λ t. in_direction direction t.direction)
      (filter (λ t. in_pair market t.market.pair) (filter (between first last) trades))

abbrev pub in_order : Sort → List Trade → List Trade
in_order desc ts = reverse ts
in_order asc ts = ts

abbrev pub page_size : ℤ → ℕ
page_size limit = min (as_usize limit) 2000

unfoldable pub field_trades :
    ℕ
    → TradeHistory
    → Option String
    → Option Direction
    → Option String
    → Option String
    → ℤ
    → Sort
    → Option (List Trade)
field_trades now history market direction timestamp_from timestamp_to limit sort = do
  first ← read_time timestamp_from
  last ← read_time timestamp_to
  some (
      take (page_size limit) (
        in_order sort
          (wanted_trades (unwrap_or first 0) (unwrap_or last now) market direction history)))

-- `Option::map`
abbrev pub map_option {ℓ κ} : {A : Type ℓ} {B : Type κ} → (A → B) → Option A → Option B
map_option f none = none
map_option f (some a) = some (f a)

-- An answer, or the text of an error.
pub data FieldResult (A : Type 0) : Type 0 where
  ok : A → FieldResult A
  err : String → FieldResult A

-- `and_then(|m| Market::from_pair(&m))`
abbrev pub market_of_pair : Option String → Option Market
market_of_pair none = none
market_of_pair (some pair) = from_pair pair

module _ {T : Type 0} (c : Chrono T) (now : ℕ) where
  abbrev pub hloc_of_market :
      TradeHistory → Market → Option ℕ → Option ℕ → Option ApiInterval → Option (List Hloc)
  hloc_of_market history market first last interval = Hloc.from_trades c now history (record {
    market = market;
    timestamp_from = first;
    timestamp_to = last;
    interval = map_option interval_from interval;
  })

  -- `StatsCacheInner::hloc` is `Hloc::from_trades` on the history.
  unfoldable pub field_hloc :
      TradeHistory
      → String
      → Option String
      → Option String
      → Option ApiInterval
      → Option (FieldResult (List Hloc))
  field_hloc history pair timestamp_from timestamp_to interval = elim (from_pair pair) [
    | none ↦ some (err ("MarketPair '" ++ (pair ++ "' does not exist")))
    | some market ↦ do
      first ← read_time timestamp_from
      last ← read_time timestamp_to
      candles ← hloc_of_market history market first last interval
      some (ok candles)
  ]

  unfoldable pub field_volumes :
      TradeHistory → Option String → Option ApiInterval → Option (List Volume)
  field_volumes history market interval =
      volumes c now history (market_of_pair market) (map_option interval_from interval)

unfoldable pub field_ticker :
    {F : Type 0}
    → PairSort
    → ℕ
    → TradeHistory
    → HashMap SequencedMessageHash (OpenOffer F)
    → Option String
    → List Ticker
field_ticker by_pair now history open_offers market =
    Ticker.from_trades by_pair now history (market_of_pair market) (values open_offers)

-- ===== src/Statistics/Ticker.antt =====
-- src/domain/statistics/ticker.rs: the last day of a market. The clock's reading is an argument, in
-- nanoseconds; the tickers are a map from the pairs of the markets.
pub mod Loops
pub mod Markets
pub mod Day
pub mod Prices
pub mod Tests
use mathlib.Core.List.{Perm}
use risq.Base.{
  ℕ, ◌-◌, ◌*◌, String, string_eq, Option, none, some, is_some, not, List, [], ◌∷◌, map, reverse,
  filter, leb, if◌then◌else◌, ◌==◌,
}
use risq.Base.HashMap.{HashMap, get, insert}
use risq.Base.HashSet.{contains}
use risq.Amount.{NumberWithPrecision, zero_amount, add_assign}
use risq.Market.{Market, all_markets}
use risq.Offer.{OpenOffer, from_secs}
use risq.Offer
use risq.Statistics.Trade.{Trade, TradeHistory}
use risq.Statistics.Hloc.{max_price, min_price, unwrap_or}

pub record Ticker : Type 0 where
  pub market : Market
  pub last : Option NumberWithPrecision
  pub high : Option NumberWithPrecision
  pub low : Option NumberWithPrecision
  pub volume_left : NumberWithPrecision
  pub volume_right : NumberWithPrecision
  pub buy : Option NumberWithPrecision
  pub sell : Option NumberWithPrecision

abbrev pub Tickers : Type 0
Tickers = HashMap String Ticker

abbrev pub empty_ticker : Market → Ticker
empty_ticker market = record {
  market = market;
  last = none;
  high = none;
  low = none;
  volume_left = zero_amount;
  volume_right = zero_amount;
  buy = none;
  sell = none;
}

-- `if let Some(ticker) = tickers.get_mut(pair)`, and the body that changes the ticker.
abbrev pub update : String → (Ticker → Ticker) → Tickers → Tickers
update pair f tickers = elim (get pair tickers) [
  | none ↦ tickers
  | some ticker ↦ insert pair (f ticker) tickers
]

-- Extends a bound, if there is one.
abbrev pub extend :
    (NumberWithPrecision → NumberWithPrecision → NumberWithPrecision)
    → Option NumberWithPrecision
    → NumberWithPrecision
    → Option NumberWithPrecision
extend bound none price = some price
extend bound (some best) price = some (bound best price)

-- The body of the first loop.
abbrev pub add_recent : Trade → Ticker → Ticker
add_recent t ticker = record ticker {
  last = some (unwrap_or ticker.last t.price);
  high = extend max_price ticker.high t.price;
  low = extend min_price ticker.low t.price;
  volume_left = add_assign ticker.volume_left t.amount;
  volume_right = add_assign ticker.volume_right t.volume;
}

-- The first loop, with the trades it has not gone over.
unfoldable pub recent : ℕ → List Trade → Tickers → Tickers × List Trade
recent earliest [] tickers = (tickers, [])
recent earliest (t ∷ ts) tickers =
    let later = recent earliest ts (update t.market.pair (add_recent t) tickers) in
    if leb earliest t.timestamp then later else (tickers, t ∷ ts)

-- The body of the second loop.
abbrev pub set_price : Trade → Ticker → Ticker
set_price t ticker = record ticker { last = some t.price; high = some t.price; low = some t.price }

-- The keys of `missing_markets`, whose values point into the tickers.
abbrev pub missing_markets : Tickers → List String
missing_markets tickers = map (λ e. e.0) (filter (λ e. not (is_some e.1.last)) tickers)

-- The second loop.
unfoldable pub older : List String → List Trade → Tickers → Tickers
older missing [] tickers = tickers
older [] (t ∷ ts) tickers = tickers
older (k ∷ ks) (t ∷ ts) tickers =
    let pair = t.market.pair in
    let found = contains pair (k ∷ ks) in
    let left = if found then filter (λ j. not (j == pair)) (k ∷ ks) else k ∷ ks in
    older left ts (if found then update pair (set_price t) tickers else tickers)

-- What an offer makes of the ticker of its market.
unfoldable pub show_offer : {F : Type 0} → OpenOffer F → Ticker → Ticker
show_offer offer ticker = elim (offer.direction) [
  | Offer.buy ↦ record ticker { sell = extend max_price ticker.sell offer.display_price }
  | Offer.sell ↦ record ticker { buy = extend min_price ticker.buy offer.display_price }
]

-- The loop of `return_tickers`.
unfoldable pub show_offers : {F : Type 0} → List (OpenOffer F) → Tickers → Tickers
unfolding show_offer
show_offers [] tickers = tickers
show_offers (o ∷ os) tickers = show_offers os (update o.market.pair (show_offer o) tickers)

-- `sort_unstable_by` on the pairs: it gives some permutation.
pub record PairSort : Type 0 where
  pub sort : List Ticker → List Ticker
  pub perm : (ts : List Ticker) → Perm (sort ts) ts

-- The tickers to fill: of the market, or of all.
unfoldable pub empty_tickers : List Market → Tickers
empty_tickers [] = []
empty_tickers (m ∷ ms) = insert m.pair (empty_ticker m) (empty_tickers ms)

-- The markets that are wanted for.
unfoldable pub wanted : Option Market → List Market
unfolding all_markets
wanted none = all_markets
wanted (some market) = market ∷ []

-- The tickers after both loops. A time before UNIX_EPOCH is no earlier than any trade's, as 0.
unfoldable pub priced : ℕ → TradeHistory → Tickers → Tickers
unfolding recent older
priced now history tickers =
    let earliest = now - from_secs (24 * 60 * 60) in
    let (tickers', ts) = recent earliest (reverse history) tickers in
    older (missing_markets tickers') ts tickers'

module _ {F : Type 0} (by_pair : PairSort) where
  unfoldable pub return_tickers : Tickers → List (OpenOffer F) → List Ticker
  unfolding show_offers
  return_tickers tickers offers = by_pair.sort (map (λ e. e.1) (show_offers offers tickers))

  -- `Ticker::from_trades`
  unfoldable pub from_trades : ℕ → TradeHistory → Option Market → List (OpenOffer F) → List Ticker
  unfolding return_tickers priced empty_tickers wanted
  from_trades now history market offers =
      return_tickers (priced now history (empty_tickers (wanted market))) offers

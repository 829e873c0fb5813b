-- ===== src/Statistics/Ticker/Prices.antt =====
-- What src/domain/statistics/ticker.rs says of one market, against its trades and offers.
use mathlib.Core.List.{foldl}
use risq.Base.{
  ℕ, ◌-◌, ◌*◌, String, string_eq, ◌≡◌, refl, sym, ap, ◌∙◌, Option, none, some, Bool, true, false,
  List, [], ◌∷◌, map, reverse, filter, find, ◌==◌, leb, Bool-cases, inl, inr, subst,
}
use risq.Base.Sorted.{reverse-Descending}
use risq.Base.HashMap.{get, get-insert}
use risq.Amount.{NumberWithPrecision}
use risq.Market.{Market}
use risq.Offer.{OfferDirection, OpenOffer, from_secs}
use risq.Offer
use risq.Statistics.Trade.{Trade, TradeHistory}
use risq.Statistics.History.{IsOrdered}
use risq.Statistics.Hloc.{max_price, min_price}
use risq.Statistics.Ticker.{
  Ticker, extend, priced, show_offer, show_offers, empty_ticker, empty_tickers, wanted,
}
use risq.Statistics.Ticker.Loops.{map_some, of_pair, span, from_market}
use risq.Statistics.Ticker.Markets.{offer_of_pair, with_offers, tickers_lem}
use risq.Statistics.Ticker.Day.{
  best, extend_all, sum_up, span-filter, head, find-span, IsPriced, both, both-IsPriced,
}

abbrev pub one_day : ℕ
one_day = from_secs (24 * 60 * 60)

abbrev pub market_for : String → List Market → Option Market
market_for pair = find (λ m. m.pair == pair)

abbrev pub day_trades : String → ℕ → TradeHistory → List Trade
day_trades pair now history =
    filter (of_pair pair) (filter (λ t. leb (now - one_day) t.timestamp) (reverse history))

abbrev ticker_for : Option Market → Option Ticker
ticker_for none = none
ticker_for (some m) = some (empty_ticker m)

get_nil : (pair : String) → get {V = Ticker} pair [] ≡ none
unfolding get
get_nil pair = refl

get-empty_tickers :
    (pair : String) (ms : List Market)
    → get pair (empty_tickers ms) ≡ ticker_for (market_for pair ms)
unfolding empty_tickers
get-empty_tickers pair [] = get_nil pair
get-empty_tickers pair (m ∷ ms) =
    get-insert m.pair pair (empty_ticker m) (empty_tickers ms)
    ∙ elim (Bool-cases (m.pair == pair)) [
      | inl same ↦ rw same refl
      | inr other ↦ rw other (get-empty_tickers pair ms)
    ]

module _ {F : Type 0} where
  abbrev pub is_buy : OpenOffer F → Bool
  is_buy o = elim (o.direction) [ Offer.buy ↦ true | Offer.sell ↦ false ]

  abbrev pub is_sell : OpenOffer F → Bool
  is_sell o = elim (o.direction) [ Offer.buy ↦ false | Offer.sell ↦ true ]

  abbrev pub display_prices : List (OpenOffer F) → List NumberWithPrecision
  display_prices os = map (λ o. o.display_price) os

  abbrev show_all : List (OpenOffer F) → Ticker → Ticker
  show_all os k = foldl (λ j o. show_offer o j) k os

  -- The loop over the offers extends two fields and keeps the others.
  record IsExtended (k : Ticker) (os : List (OpenOffer F)) (r : Ticker) : Type 0 where
    market : r.market ≡ k.market
    last : r.last ≡ k.last
    high : r.high ≡ k.high
    low : r.low ≡ k.low
    volume_left : r.volume_left ≡ k.volume_left
    volume_right : r.volume_right ≡ k.volume_right
    sell : r.sell ≡ foldl (extend max_price) k.sell (display_prices (filter is_buy os))
    buy : r.buy ≡ foldl (extend min_price) k.buy (display_prices (filter is_sell os))

  show_one :
      (k : Ticker) (o : OpenOffer F) (os : List (OpenOffer F))
      → IsExtended (show_offer o k) os (show_all os (show_offer o k))
      → IsExtended k (o ∷ os) (show_all (o ∷ os) k)
  unfolding show_offer
  show_one k o os h = side (o.direction) refl
    where
      side : (d : OfferDirection) → o.direction ≡ d → IsExtended k (o ∷ os) (show_all (o ∷ os) k)
      side Offer.buy e = record {
        market = h.market ∙ rw e refl;
        last = h.last ∙ rw e refl;
        high = h.high ∙ rw e refl;
        low = h.low ∙ rw e refl;
        volume_left = h.volume_left ∙ rw e refl;
        volume_right = h.volume_right ∙ rw e refl;
        sell = h.sell ∙ rw e refl;
        buy = h.buy ∙ rw e refl;
      }
      side Offer.sell e = record {
        market = h.market ∙ rw e refl;
        last = h.last ∙ rw e refl;
        high = h.high ∙ rw e refl;
        low = h.low ∙ rw e refl;
        volume_left = h.volume_left ∙ rw e refl;
        volume_right = h.volume_right ∙ rw e refl;
        sell = h.sell ∙ rw e refl;
        buy = h.buy ∙ rw e refl;
      }

  show_all-IsExtended : (k : Ticker) (os : List (OpenOffer F)) → IsExtended k os (show_all os k)
  show_all-IsExtended k [] = record {
    market = refl;
    last = refl;
    high = refl;
    low = refl;
    volume_left = refl;
    volume_right = refl;
    sell = refl;
    buy = refl;
  }
  show_all-IsExtended k (o ∷ os) = show_one k o os (show_all-IsExtended (show_offer o k) os)

  -- A ticker of a market with these trades of the last day, the latest first, this latest trade and
  -- these offers: the last price is that of the latest trade; the high and the low are the highest
  -- and the lowest price of the day, or that of the latest trade if the day has none; the volumes
  -- are the sums of the day; the sell is the highest price of an offer to buy, the buy the lowest
  -- of an offer to sell.
  pub record IsTicker (m : Market) (day : List Trade) (latest : Option Trade)
      (offers : List (OpenOffer F)) (k : Ticker) : Type 0 where
    pub trades : IsPriced m day latest k
    pub sell : k.sell ≡ best max_price (display_prices (filter is_buy offers))
    pub buy : k.buy ≡ best min_price (display_prices (filter is_sell offers))

  shown-IsTicker :
      (m : Market) (day : List Trade) (latest : Option Trade) (os : List (OpenOffer F)) (k : Ticker)
      → IsPriced m day latest k
      → k.buy ≡ none
      → k.sell ≡ none
      → IsTicker m day latest os (show_all os k)
  shown-IsTicker m day latest os k p no_buy no_sell =
      let h = show_all-IsExtended k os in
      record {
        trades = record {
          of_market = h.market ∙ p.of_market;
          last = h.last ∙ p.last;
          high = h.high ∙ p.high;
          low = h.low ∙ p.low;
          volume_left = h.volume_left ∙ p.volume_left;
          volume_right = h.volume_right ∙ p.volume_right;
        };
        sell =
            h.sell
            ∙ ap (λ o. foldl (extend max_price) o (display_prices (filter is_buy os))) no_sell
            ∙ extend_all max_price (display_prices (filter is_buy os));
        buy =
            h.buy
            ∙ ap (λ o. foldl (extend min_price) o (display_prices (filter is_sell os))) no_buy
            ∙ extend_all min_price (display_prices (filter is_sell os));
      }

  -- The ticker of a pair is there where a market that is asked for has the pair.
  abbrev pub IsShown :
      String → ℕ → TradeHistory → Option Market → List (OpenOffer F) → Option Ticker → Type 0
  IsShown pair now history market offers none = market_for pair (wanted market) ≡ none
  IsShown pair now history market offers (some k) =
      (m : Market) × (market_for pair (wanted market) ≡ some m)
      × IsTicker m (day_trades pair now history) (find (of_pair pair) (reverse history))
          (filter (offer_of_pair pair) offers) k

  -- With a history in the order of time, a pair has a ticker just where a market that is asked for
  -- has the pair. The last price is that of the market's latest trade; the high, the low and the
  -- volumes are the maximum and the minimum of the prices and the sums of the market's trades of the
  -- last day, or the price of the latest trade and zero if there are none; the sell is the maximum
  -- of the display prices of the market's offers to buy, and the buy the minimum for its offers to
  -- sell, if there are any. Maximum, minimum and sum are those of the source, taken one by one.
  pub tickers-IsShown :
      (pair : String) (now : ℕ) (history : TradeHistory) (market : Option Market)
      (offers : List (OpenOffer F))
      → IsOrdered history
      → IsShown pair now history market offers
          (get pair (show_offers offers (priced now history (empty_tickers (wanted market)))))
  tickers-IsShown pair now history market offers o =
      rw (tickers_lem pair now history market offers, get-empty_tickers pair (wanted market))
        (shown (market_for pair (wanted market)) refl)
    where
      day_same :
          filter (of_pair pair) (span (now - one_day) (reverse history)).0
          ≡ day_trades pair now history
      day_same = ap (filter (of_pair pair)) (
          span-filter (now - one_day) (reverse history)
            (reverse-Descending (λ t. t.timestamp) history o))

      shown :
          (found : Option Market)
          → market_for pair (wanted market) ≡ found
          → IsShown pair now history market offers (
              map_some
                (λ k.
                  with_offers pair offers (from_market pair (now - one_day) (reverse history) k))
                (ticker_for found))
      shown none e = e
      shown (some m) e =
          let ts = reverse history in
          let older = find (of_pair pair) (span (now - one_day) ts).1 in
          let day = filter (of_pair pair) (span (now - one_day) ts).0 in
          let (trades, no_buy, no_sell) = both-IsPriced m day older in
          (
            m,
            e,
            subst
                (λ us.
                  IsTicker m us (find (of_pair pair) ts) (filter (offer_of_pair pair) offers) (
                    with_offers pair offers (from_market pair (now - one_day) ts (empty_ticker m))))
                day_same
                (subst
                  (λ latest. IsTicker m day latest (filter (offer_of_pair pair) offers) (
                    with_offers pair offers (from_market pair (now - one_day) ts (empty_ticker m))))
                  (sym (find-span pair (now - one_day) ts))
                  (shown-IsTicker m day (head day older) (filter (offer_of_pair pair) offers)
                    (both older (sum_up day (empty_ticker m))) trades no_buy no_sell)),
          )

-- ===== src/Statistics/Ticker/Tests.antt =====
-- The tickers of src/domain/statistics/ticker.rs at concrete trades and offers.
use risq.Base.{ℕ, ◌≡◌, refl, string_eq, Option, none, some, [], ◌∷◌, ◌+◌, ◌*◌}
use risq.Base.HashMap.{get, insert}
use risq.Amount.{NumberWithPrecision, new, cmp, with_precision}
use risq.Offer.{from_secs}
use risq.OfferBook.Tests.{second_offer}
use risq.Statistics.Tests.{history, history-IsOrdered, sample_market}
use risq.Statistics.Hloc.{max_price}
use risq.Statistics.Ticker.{Ticker, show_offers, priced, empty_tickers, wanted, recent, older}
use risq.Statistics.Ticker.Prices.{IsShown, tickers-IsShown}

-- A day after the trade of the time 150.
abbrev next_day : ℕ
next_day = from_secs (24 * 60 * 60) + 150

abbrev highs : Option Ticker → Option NumberWithPrecision
highs none = none
highs (some k) = k.high

-- The trade before the last day does not count.
highest :
    highs (get "btc_eur" (priced next_day history (empty_tickers (wanted (some sample_market)))))
    ≡ some (new 95 4)
unfolding priced empty_tickers wanted recent older get insert max_price cmp with_precision
highest = refl

tickers-IsShown_example :
    IsShown "btc_eur" next_day history (some sample_market) (second_offer ∷ []) (
      get "btc_eur" (
        show_offers
          (second_offer ∷ [])
          (priced next_day history (empty_tickers (wanted (some sample_market))))))
tickers-IsShown_example =
    tickers-IsShown "btc_eur" next_day history (some sample_market) (second_offer ∷ [])
      history-IsOrdered

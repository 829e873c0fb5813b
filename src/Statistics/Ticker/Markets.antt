-- ===== src/Statistics/Ticker/Markets.antt =====
-- What the loops of src/domain/statistics/ticker.rs give for one market, whatever the others are.
use mathlib.Core.List.{foldl}
use risq.Base.{
  ℕ, ◌-◌, ◌*◌, String, string_eq, ◌≡◌, refl, sym, ap, fun_ext, ◌∙◌, Option, none, some, Bool, true,
  false, List, [], ◌∷◌, reverse, filter, ◌==◌, Bool-cases, inl, inr,
}
use risq.Base.HashMap.{get, Distinct, insert-Distinct}
use risq.Market.{Market}
use risq.Offer.{from_secs, OpenOffer}
use risq.Statistics.Trade.{TradeHistory}
use risq.Statistics.Ticker.Loops.{map_some, get-update, map_some_twice, from_market, get-priced}
use risq.Statistics.Ticker.{
  Ticker, Tickers, update, priced, show_offer, show_offers, empty_ticker, empty_tickers, wanted,
}

empty_tickers-Distinct : (ms : List Market) → Distinct (empty_tickers ms)
unfolding empty_tickers
empty_tickers-Distinct [] = tt
empty_tickers-Distinct (m ∷ ms) =
    insert-Distinct m.pair (empty_ticker m) (empty_tickers ms) (empty_tickers-Distinct ms)

module _ {F : Type 0} where
  abbrev pub offer_of_pair : String → OpenOffer F → Bool
  offer_of_pair pair o = o.market.pair == pair

  abbrev pub with_offers : String → List (OpenOffer F) → Ticker → Ticker
  with_offers pair offers ticker =
      foldl (λ k o. show_offer o k) ticker (filter (offer_of_pair pair) offers)

  shown_first :
      (pair : String) (o : OpenOffer F) (os : List (OpenOffer F)) (k : Ticker)
      → (o.market.pair == pair) ≡ true
      → with_offers pair (o ∷ os) k ≡ with_offers pair os (show_offer o k)
  shown_first pair o os k same = rw same refl

  not_shown :
      (pair : String) (o : OpenOffer F) (os : List (OpenOffer F)) (k : Ticker)
      → (o.market.pair == pair) ≡ false
      → with_offers pair (o ∷ os) k ≡ with_offers pair os k
  not_shown pair o os k other = rw other refl

  get-show_offers :
      (pair : String) (offers : List (OpenOffer F)) (m : Tickers)
      → get pair (show_offers offers m) ≡ map_some (with_offers pair offers) (get pair m)
  unfolding show_offers
  get-show_offers pair [] m = same_option (get pair m)
    where
      same_option : (o : Option Ticker) → o ≡ map_some (λ k. k) o
      same_option none = refl
      same_option (some k) = refl
  get-show_offers pair (o ∷ os) m =
      let at = o.market.pair in
      get-show_offers pair os (update at (show_offer o) m)
      ∙ rw (get-update at pair (show_offer o) m) (elim (Bool-cases (at == pair)) [
        | inl same ↦
            let shown : with_offers pair (o ∷ os) ≡ (λ k. with_offers pair os (show_offer o k)) =
              fun_ext (λ k. shown_first pair o os k same) in
            rw same (map_some_twice (show_offer o) (with_offers pair os) (get pair m))
            ∙ ap (λ g. map_some g (get pair m)) (sym shown)
        | inr other ↦
            let hidden : with_offers pair (o ∷ os) ≡ with_offers pair os =
              fun_ext (λ k. not_shown pair o os k other) in
            rw other (ap (λ g. map_some g (get pair m)) (sym hidden))
      ])

  -- The ticker of a market, which `from_trades` makes along with those of the other markets, is
  -- what the bodies of the loops make of it with the trades and the offers of that market, from the
  -- latest trade on: the trades up to the first one of any market that is older than a day are
  -- summed up; without any of them the prices are those of the latest trade before; then come the
  -- offers. A market that is not asked
  -- for has no ticker.
  pub tickers_lem :
      (pair : String) (now : ℕ) (history : TradeHistory) (market : Option Market)
      (offers : List (OpenOffer F))
      → get pair (show_offers offers (priced now history (empty_tickers (wanted market))))
        ≡ map_some
            (λ k.
              with_offers pair offers
                (from_market pair (now - from_secs (24 * 60 * 60)) (reverse history) k))
            (get pair (empty_tickers (wanted market)))
  tickers_lem pair now history market offers =
      let ms = wanted market in
      get-show_offers pair offers (priced now history (empty_tickers ms))
      ∙ rw (get-priced pair now history (empty_tickers ms) (empty_tickers-Distinct ms)) (
          map_some_twice (from_market pair (now - from_secs (24 * 60 * 60)) (reverse history))
            (with_offers pair offers) (get pair (empty_tickers ms)))

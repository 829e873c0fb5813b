-- ===== src/DataRouter/Delivery.antt =====
-- The data router of src/daemon/data_router.rs with the actors that it sends to: the offer book of
-- src/domain/offer/offer_book.rs and the cache of src/domain/statistics.rs. What the router has
-- sent waits in one queue, and is handled in the order of the sends, at any later time.
use risq.Base.{ℕ, String, Option, none, some, List, [], ◌∷◌, ◌++◌, ◌>>=◌}
use risq.Base.HashMap.{HashMap}
use risq.F64.{F64}
use risq.Offer.{PriceData}
use risq.OfferBook.{OfferBook, check_ttl}
use risq.OfferBook
use risq.P2p.Status.{ConnectionId}
use risq.Payload.Message.{NetworkMessage}
use risq.Payload.{Crypto}
use risq.Statistics.Cache.{StatsCache, new_cache, TradeSort}
use risq.Statistics.Cache
use risq.DataRouter.State.{
  DataRouter, start, Sent, to_offer_book, to_stats_cache, to_stats_bootstrap, DataRouterDispatch,
  on_result,
}
use risq.DataRouter.{handle}

pub record System (F : Type 0) : Type 0 where
  pub router : DataRouter F
  pub queue : List (Sent F)
  pub book : OfferBook F
  pub cache : StatsCache
  -- what the broadcaster was sent, the latest first
  pub broadcasts : List (NetworkMessage F × ConnectionId)

abbrev pub initial : {F : Type 0} → System F
initial = record {
  router = start;
  queue = [];
  book = OfferBook.start;
  cache = new_cache;
  broadcasts = [];
}

abbrev pub broadcast : {A : Type 0} → Option A → List A → List A
broadcast none sent = sent
broadcast (some a) sent = a ∷ sent

-- A message arrives at the router, the next one in the queue is handled, or the book sweeps.
pub data Event (F : Type 0) : Type 0 where
  received : ℕ → ConnectionId → DataRouterDispatch F → Event F
  delivered : ℕ → Event F
  swept : ℕ → Option (HashMap String (PriceData F)) → Event F

module _ {F : Type 0} (f : F64 F) (by_time : TradeSort) where
  abbrev pub deliver_sent : ℕ → Sent F → System F → System F
  deliver_sent now (to_offer_book command handler) s =
      let (book, result) = OfferBook.handle f now command s.book in
      record s { book = book; broadcasts = broadcast (on_result handler result) s.broadcasts }
  deliver_sent now (to_stats_cache trade handler) s =
      let (cache, result) = Cache.insert trade s.cache in
      record s { cache = cache; broadcasts = broadcast (on_result handler result) s.broadcasts }
  deliver_sent now (to_stats_bootstrap trades) s = record s {
    cache = Cache.bootstrap by_time trades s.cache;
  }

  abbrev pub deliver_next : ℕ → List (Sent F) → System F → System F
  deliver_next now [] s = s
  deliver_next now (m ∷ rest) s = deliver_sent now m (record s { queue = rest })

module _ {F K : Type 0} (c : Crypto F K) (f : F64 F) (by_time : TradeSort) where
  -- `none` is a panic of the router.
  unfoldable pub on_event : Event F → System F → Option (System F)
  on_event (received now origin dispatch) s = do
    outcome ← handle c f now origin dispatch s.router
    some (record s { router = outcome.0; queue = s.queue ++ outcome.1 })
  on_event (delivered now) s = some (deliver_next f by_time now s.queue s)
  on_event (swept now prices) s =
      some (record s { book = (OfferBook.handle f now (check_ttl prices) s.book).0 })

  unfoldable pub run_events : List (Event F) → System F → Option (System F)
  run_events [] s = some s
  run_events (e ∷ es) s = do s' ← on_event e s; run_events es s'

-- ===== src/Statistics/Cache.antt =====
-- `StatsCacheInner` of src/domain/statistics.rs: the history of trades, each offer at most once.
-- The write lock makes each operation one step.
use mathlib.Core.List.{
  Perm, Nodup, Nodup-cons, Nodup-nil, perm_middle, perm_append_comm, map-append,
}
use mathlib.Core.List.Perm
use risq.Base.{
  ◌≡◌, ◌⊎◌, String, true, false, List, [], ◌∷◌, ◌++◌, map, string_eq, Bool-cases, inl, inr,
  if◌then◌else◌,
}
use risq.Base.HashSet.{contains, set_insert, not-mem_of_contains}
use risq.OfferBook.{CommandResult, accepted, ignored}
use risq.Statistics.Trade.{Trade, TradeHistory}
use risq.Statistics.Trade
use risq.Statistics.History.{IsOrdered, insert-IsOrdered, insert-perm}

pub record StatsCache : Type 0 where
  pub trades : TradeHistory
  pub ids : List String

-- `StatsCache::new`
abbrev pub new_cache : StatsCache
new_cache = record { trades = []; ids = [] }

unfoldable pub insert : Trade → StatsCache → StatsCache × CommandResult
insert t cache =
    let (ids, fresh) = set_insert t.offer_id cache.ids in
    if fresh
    then (record { trades = Trade.insert cache.trades t; ids = ids }, accepted)
    else (record cache { ids = ids }, ignored)

-- The `filter` of `bootstrap`, which collects the ids as it goes.
unfoldable pub fresh_trades : List Trade → List String → List Trade × List String
fresh_trades [] ids = ([], ids)
fresh_trades (t ∷ ts) ids =
    let (ids', fresh) = set_insert t.offer_id ids in
    let (rest, ids'') = fresh_trades ts ids' in (if fresh then t ∷ rest else rest, ids'')

-- `sort_unstable_by` on the timestamps: which of the sorted permutations it gives is not specified.
pub record TradeSort : Type 0 where
  pub sort : List Trade → TradeHistory
  pub ordered : (ts : List Trade) → IsOrdered (sort ts)
  pub perm : (ts : List Trade) → Perm (sort ts) ts

-- `insert_all` and `bootstrap`
unfoldable pub bootstrap : TradeSort → List Trade → StatsCache → StatsCache
bootstrap by_time ts cache =
    let (new, ids) = fresh_trades ts cache.ids in
    record { trades = by_time.sort (cache.trades ++ new); ids = ids }

abbrev pub offer_ids : List Trade → List String
offer_ids = map (λ t. t.offer_id)

-- The trades stand in the order of time, and `ids` has the offer of each trade just once: so no two
-- trades are of one offer.
pub record IsValid (cache : StatsCache) : Type 0 where
  pub ordered : IsOrdered cache.trades
  pub listed : Perm (offer_ids cache.trades) cache.ids
  pub distinct : Nodup cache.ids

pub new_cache-IsValid : IsValid new_cache
new_cache-IsValid = record { ordered = tt; listed = Perm.refl []; distinct = Nodup-nil }

-- An insertion keeps the cache well-formed: trades in the order of time, and one of each offer.
pub insert-IsValid : (t : Trade) (cache : StatsCache) → IsValid cache → IsValid (insert t cache).0
unfolding insert set_insert
insert-IsValid t cache v = elim (Bool-cases (contains t.offer_id cache.ids)) [
  | inl old ↦ rw old v
  | inr new ↦ rw new (record {
    ordered = insert-IsOrdered cache.trades t v.ordered;
    listed =
        Perm.trans (Perm.map (λ u. u.offer_id) (insert-perm cache.trades t))
          (Perm.cons t.offer_id v.listed);
    distinct = Nodup-cons.1 (not-mem_of_contains t.offer_id cache.ids new, v.distinct);
  })
]

fresh_trades-listed :
    (ts : List Trade) (ids : List String)
    → Nodup ids
    → Perm (offer_ids (fresh_trades ts ids).0 ++ ids) (fresh_trades ts ids).1
      × Nodup (fresh_trades ts ids).1
unfolding fresh_trades set_insert
fresh_trades-listed [] ids d = (Perm.refl ids, d)
fresh_trades-listed (t ∷ ts) ids d = elim (Bool-cases (contains t.offer_id ids)) [
  | inl old ↦ rw old (fresh_trades-listed ts ids d)
  | inr new ↦
      let ids' = t.offer_id ∷ ids in
      let fresh = Nodup-cons.1 (not-mem_of_contains t.offer_id ids new, d) in
      let (listed, distinct) = fresh_trades-listed ts ids' fresh in
      rw new (
        Perm.trans (Perm.symm (perm_middle (offer_ids (fresh_trades ts ids').0) ids)) listed,
        distinct,
      )
]

-- Loading many trades keeps the cache well-formed, whatever sort by time is used.
pub bootstrap-IsValid :
    (by_time : TradeSort) (ts : List Trade) (cache : StatsCache)
    → IsValid cache
    → IsValid (bootstrap by_time ts cache)
unfolding bootstrap
bootstrap-IsValid by_time ts cache v =
    let (listed, distinct) = fresh_trades-listed ts cache.ids v.distinct in
    let new = (fresh_trades ts cache.ids).0 in
    record {
      ordered = by_time.ordered (cache.trades ++ new);
      listed = Perm.trans (Perm.map (λ u. u.offer_id) (by_time.perm (cache.trades ++ new))) (
          rw map-append (
            Perm.trans (Perm.append_right (offer_ids new) v.listed)
              (Perm.trans (perm_append_comm cache.ids (offer_ids new)) listed)));
      distinct = distinct;
    }

-- A trade of an offer that is known is answered by `ignored` and changes nothing; any other one by
-- `accepted`, and just it and its offer are added.
pub insert_effect :
    (t : Trade) (cache : StatsCache)
    → (contains t.offer_id cache.ids ≡ true) × (insert t cache ≡ (cache, ignored))
      ⊎ (contains t.offer_id cache.ids ≡ false)
        × ((insert t cache).1 ≡ accepted)
        × ((insert t cache).0.ids ≡ t.offer_id ∷ cache.ids)
        × Perm (insert t cache).0.trades (t ∷ cache.trades)
unfolding insert set_insert
insert_effect t cache = elim (Bool-cases (contains t.offer_id cache.ids)) [
  | inl old ↦ inl (old, rw old)
  | inr new ↦ inr (new, rw new, rw new, rw new (insert-perm cache.trades t))
]

-- ===== src/Statistics/Volume/Total.antt =====
-- All trades that `Volume::from_trades` of src/domain/statistics/volume.rs counts.
use mathlib.Core.List.{foldl}
use risq.Base.{
  ℕ, ◌≡◌, ◌≢◌, ◌≤◌, ◌<◌, refl, ap, ◌∙◌, Bool, Option, none, some, List, [], ◌∷◌, filter, length,
  All, All-imp, arith, subst, sym,
}
use risq.Amount.{u32_mod}
use risq.Market.{Market}
use risq.Statistics.Trade.{Trade, first_trade_time}
use risq.Statistics.History.{IsOrdered}
use risq.Statistics.Interval.{
  Interval, half_hour, half_day, Chrono, appropriate_floor, add_interval, intervals,
}
use risq.Statistics.Interval.Floor.{IsChrono}
use risq.Statistics.Interval.Windows.{Tiles, Covers, intervals_tile}
use risq.Statistics.Buckets.{buckets, per_period}
use risq.Statistics.Buckets.Laws.{within, InOrder, buckets-eq-summaries, filter-IsOrdered}
use risq.Statistics.Buckets.Chart.{Chart, Chart-nil, summaries-Chart}
use risq.Statistics.Volume.{Volume, empty_volume, add_trade, in_market, volumes}
use risq.Statistics.Volume.Count.{
  total, last_end, buckets_total, count_le, foldl_count, Tiles-order,
}

All-filter_of :
    (P : Trade → Type 0) (p : Trade → Bool) (ts : List Trade) → All P ts → All P (filter p ts)
All-filter_of P p [] h = tt
All-filter_of P p (t ∷ ts) h = ground (arith, All-filter_of P p ts h.1)

-- A trade of the span.
abbrev Inside : ℕ → ℕ → Trade → Type 0
Inside start end t = (start ≤ t.timestamp) × (t.timestamp < end)

filter-within :
    (start end : ℕ) (ts : List Trade)
    → All (Inside start end) ts
    → filter (within start end) ts ≡ ts
filter-within start end [] h = refl
filter-within start end (t ∷ ts) h = ground (arith, filter-within start end ts h.1)

Tiles-reach : (start end : ℕ) (ws : List (ℕ × ℕ)) → Tiles start end ws → end ≤ last_end start ws
Tiles-reach start end [] h = h
Tiles-reach start end ((s, e) ∷ ws) h = Tiles-reach e end ws h.3

-- The volume of a period from `s` on with these trades.
abbrev pub CountsPeriod : ℕ → Trade → List Trade → Volume → Type 0
CountsPeriod s t ts v = (v.period_start ≡ s) × (v.num_trades ≡ length (t ∷ ts))

-- A result, for periods that are there: it counts the trades of each period, and all of them.
abbrev pub Counts : List Trade → Option (List (ℕ × ℕ)) → Option (List Volume) → Type 0
Counts ts none result = ⊥
Counts ts (some ws) none = ⊥
Counts ts (some ws) (some vs) = (total vs ≡ length ts) × Chart CountsPeriod ts ws vs

foldl_start : (v : Volume) (ts : List Trade) → (foldl add_trade v ts).period_start ≡ v.period_start
foldl_start v [] = refl
foldl_start v (t ∷ ts) = foldl_start (add_trade v t) ts

buckets-Chart :
    (start : ℕ) (ws : List (ℕ × ℕ)) (ts : List Trade)
    → InOrder start ws
    → IsOrdered ts
    → length ts < u32_mod
    → Chart CountsPeriod ts ws (buckets empty_volume add_trade ws ts)
buckets-Chart start ws ts order o small =
    subst (Chart CountsPeriod ts ws)
      (sym (buckets-eq-summaries empty_volume add_trade start ws ts order o))
      (summaries-Chart CountsPeriod empty_volume add_trade (λ us. length us < u32_mod)
        (λ s t us h. (
          foldl_start (empty_volume s t) (t ∷ us),
          foldl_count (empty_volume s t) (t ∷ us) (omega (arith, h)) ∙ omega arith,
        ))
        ws ts (λ s e. omega (arith, count_le (within s e) ts, small)))

per_period-Counts :
    (start end : ℕ) (o : Option (List (ℕ × ℕ))) (ts : List Trade)
    → Covers start end o
    → IsOrdered ts
    → length ts < u32_mod
    → All (Inside start end) ts
    → Counts ts o (per_period empty_volume add_trade o ts)
unfolding per_period
per_period-Counts start end none ts h o small inside = absurd h
per_period-Counts start end (some ws) [] h o small inside = (refl, Chart-nil CountsPeriod ws)
per_period-Counts start end (some ws) (t ∷ ts) (first, before, tiles) o small inside =
    let reach = Tiles-reach first end ws tiles in
    (
      buckets_total first end ws (t ∷ ts) tiles o small
          ∙ ap length (
              filter-within first (last_end first ws) (t ∷ ts) (
                All-imp (t ∷ ts) (λ u k. (omega (arith, k.0, before), omega (arith, k.1, reach)))
                  inside)),
      buckets-Chart first ws (t ∷ ts) (Tiles-order first end ws tiles) o small,
    )

module _ {T : Type 0} (c : Chrono T) {last_time : ℕ} (laws : IsChrono c last_time) where
  -- Under the laws of `chrono`, for an interval that is not a half hour or a half day, and a
  -- history in the order of time of fewer than 2 ^ 32 trades, all before the end of the last
  -- period, which the calendar reaches: the volumes do not panic. There is one for each of the
  -- periods from the first trade to now in which the market has a trade, in their order, and no
  -- other; it has the number of the period's trades, and these numbers add up to the number of the
  -- trades of the market.
  pub volumes-Counts :
      (now : ℕ) (t : Trade) (ts : List Trade) (market : Option Market) (i : Interval)
      (floor last : T)
      → i ≢ half_hour
      → i ≢ half_day
      → appropriate_floor c i (c.from_timestamp now) ≡ some floor
      → add_interval c floor i ≡ some last
      → c.timestamp last ≤ last_time
      → IsOrdered (t ∷ ts)
      → length (t ∷ ts) < u32_mod
      → All (λ u. u.timestamp < c.timestamp last) (t ∷ ts)
      → Counts
          (filter (in_market market) (t ∷ ts))
          (intervals c i t.timestamp now)
          (volumes c now (t ∷ ts) market (some i))
  unfolding volumes first_trade_time
  volumes-Counts now t ts market i floor last p q floored added reach o small ends =
      let keep = in_market market in
      let inside : All (Inside t.timestamp (c.timestamp last)) (t ∷ ts) =
        ((omega arith, ends.0), both ts o.0 ends.1) in
      per_period-Counts t.timestamp (c.timestamp last) (intervals c i t.timestamp now)
        (filter keep (t ∷ ts))
        (intervals_tile c laws i t.timestamp now floor last p q floored added reach
          (omega (arith, ends.0, reach)))
        (filter-IsOrdered keep (t ∷ ts) o) (omega (arith, count_le keep (t ∷ ts), small))
        (All-filter_of (Inside t.timestamp (c.timestamp last)) keep (t ∷ ts) inside)
    where
      both :
          (us : List Trade)
          → All (λ u. t.timestamp ≤ u.timestamp) us
          → All (λ u. u.timestamp < c.timestamp last) us
          → All (Inside t.timestamp (c.timestamp last)) us
      both [] h k = tt
      both (u ∷ us) h k = ((h.0, k.0), both us h.1 k.1)

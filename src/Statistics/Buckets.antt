-- ===== src/Statistics/Buckets.antt =====
-- The loop that `Hloc::from_trades` (src/domain/statistics/hloc.rs) and `Volume::from_trades`
-- (src/domain/statistics/volume.rs) share: trades in the order of time are summed up by periods.
pub mod Laws
pub mod Chart
use risq.Base.{ℕ, Option, none, some, List, [], ◌∷◌, ltb, leb, if◌then◌else◌}
use risq.Statistics.Trade.{Trade}

-- `while trade.timestamp < period_start { trade = … }` on the trade at hand and those to come; `[]`
-- is `return ret`.
unfoldable pub skip : ℕ → List Trade → List Trade
skip start [] = []
skip start (t ∷ ts) = let rest = skip start ts in if ltb t.timestamp start then rest else t ∷ ts

module _ {A : Type 0} (init : ℕ → Trade → A) (step : A → Trade → A) where
  -- `while trade.timestamp < end { …; trade = … }`, with the trades that are left.
  unfoldable pub fill : ℕ → A → List Trade → A × List Trade
  fill end current [] = (current, [])
  fill end current (t ∷ ts) =
      let rest = fill end (step current t) ts in
      if ltb t.timestamp end then rest else (current, t ∷ ts)

  -- The body of the loop once the early trades are skipped, before the next period: `none` where
  -- the period has no trade.
  abbrev period : ℕ → ℕ → List Trade → Option A × List Trade
  period start end [] = (none, [])
  period start end (t ∷ ts) =
      if leb end t.timestamp
      then (none, t ∷ ts)
      else (let (current, rest) = fill end (init start t) (t ∷ ts) in (some current, rest))

  abbrev pub push : Option A → List A → List A
  push none rest = rest
  push (some a) rest = a ∷ rest

  -- `for (period_start, end) in …`. Where the trades run out the source returns at once; the
  -- periods that are left would add nothing.
  unfoldable pub buckets : List (ℕ × ℕ) → List Trade → List A
  buckets [] ts = []
  buckets ((start, end) ∷ ws) ts =
      let (current, rest) = period start end (skip start ts) in push current (buckets ws rest)

  -- The loop over the periods that `intervals` gives, `none` for a panic there. Without a trade the
  -- source returns before it computes them.
  unfoldable pub per_period : Option (List (ℕ × ℕ)) → List Trade → Option (List A)
  per_period ws [] = some []
  per_period none (t ∷ ts) = none
  per_period (some ws) (t ∷ ts) = some (buckets ws (t ∷ ts))

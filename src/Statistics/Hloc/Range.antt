-- ===== src/Statistics/Hloc/Range.antt =====
-- The prices of a period that src/domain/statistics/hloc.rs gives, against those of its trades.
use mathlib.Core.List.{foldl}
use risq.Base.{
  ℕ, ◌≡◌, ◌≤◌, ◌⊎◌, inl, inr, refl, ◌∙◌, sym, List, [], ◌∷◌, filter, All, arith, Bool, subst,
}
use risq.Amount.{NumberWithPrecision}
use risq.Amount.Scale.{cmp_same}
use risq.Statistics.Trade.{Trade}
use risq.Statistics.History.{IsOrdered}
use risq.Statistics.Buckets.{buckets}
use risq.Statistics.Buckets.Chart.{Chart, summaries-Chart}
use risq.Statistics.Buckets.Laws.{within, InOrder, buckets-eq-summaries}
use risq.Statistics.Hloc.{Hloc, init, step, max_price, min_price}

module _ (p : ℕ) where
  -- A price with the precision of the market.
  abbrev pub HasPrecision : NumberWithPrecision → Type 0
  HasPrecision n = n.precision ≡ p

  max_price-bound :
      (a b : NumberWithPrecision)
      → HasPrecision a
      → HasPrecision b
      → (a.base_amount ≤ (max_price a b).base_amount)
        × (b.base_amount ≤ (max_price a b).base_amount)
        × HasPrecision (max_price a b)
  unfolding max_price
  max_price-bound a b h k = ground (arith, cmp_same p a b h k)

  min_price-bound :
      (a b : NumberWithPrecision)
      → HasPrecision a
      → HasPrecision b
      → ((min_price a b).base_amount ≤ a.base_amount)
        × ((min_price a b).base_amount ≤ b.base_amount)
        × HasPrecision (min_price a b)
  unfolding min_price
  min_price-bound a b h k = ground (arith, cmp_same p a b h k)

  abbrev pub Spans : Hloc → Trade → Type 0
  Spans h t = (h.low.base_amount ≤ t.price.base_amount) × (t.price.base_amount ≤ h.high.base_amount)

  foldl_range :
      (h : Hloc) (ts : List Trade)
      → HasPrecision h.low
      → HasPrecision h.high
      → All (λ t. HasPrecision t.price) ts
      → ((foldl step h ts).low.base_amount ≤ h.low.base_amount)
        × (h.high.base_amount ≤ (foldl step h ts).high.base_amount)
        × ((foldl step h ts).period_start ≡ h.period_start)
        × All (Spans (foldl step h ts)) ts
  foldl_range h [] l k a = (omega arith, omega arith, refl, tt)
  foldl_range h (t ∷ ts) l k a =
      let (high_old, high_new, high_p) = max_price-bound h.high t.price k a.0 in
      let (low_old, low_new, low_p) = min_price-bound h.low t.price l a.0 in
      let (low_rest, high_rest, start, rest) = foldl_range (step h t) ts low_p high_p a.1 in
      (
        omega (arith, low_old, low_rest),
        omega (arith, high_old, high_rest),
        start,
        ((omega (arith, low_new, low_rest), omega (arith, high_new, high_rest)), rest),
      )

  -- A price that one of the trades has.
  abbrev pub IsReached : NumberWithPrecision → List Trade → Type 0
  IsReached n [] = ⊥
  IsReached n (t ∷ ts) = (n ≡ t.price) ⊎ IsReached n ts

  max_price-one : (a b : NumberWithPrecision) → (max_price a b ≡ a) ⊎ (max_price a b ≡ b)
  unfolding max_price
  max_price-one a b = ground arith

  min_price-one : (a b : NumberWithPrecision) → (min_price a b ≡ a) ⊎ (min_price a b ≡ b)
  unfolding min_price
  min_price-one a b = ground arith

  step-IsReached :
      (n old : NumberWithPrecision) (t : Trade) (ts : List Trade) (next : NumberWithPrecision)
      → (next ≡ old) ⊎ (next ≡ t.price)
      → (n ≡ next) ⊎ IsReached n ts
      → (n ≡ old) ⊎ IsReached n (t ∷ ts)
  step-IsReached n old t ts next (inl e) (inl h) = inl (h ∙ e)
  step-IsReached n old t ts next (inr e) (inl h) = inr (inl (h ∙ e))
  step-IsReached n old t ts next e (inr h) = inr (inr h)

  foldl-IsReached :
      (h : Hloc) (ts : List Trade)
      → (((foldl step h ts).low ≡ h.low) ⊎ IsReached (foldl step h ts).low ts)
        × (((foldl step h ts).high ≡ h.high) ⊎ IsReached (foldl step h ts).high ts)
  foldl-IsReached h [] = (inl refl, inl refl)
  foldl-IsReached h (t ∷ ts) =
      let (low, high) = foldl-IsReached (step h t) ts in
      (
        step-IsReached _ h.low t ts _ (min_price-one h.low t.price) low,
        step-IsReached _ h.high t ts _ (max_price-one h.high t.price) high,
      )

  -- The price of the last trade.
  abbrev pub last_price : Trade → List Trade → NumberWithPrecision
  last_price t [] = t.price
  last_price t (u ∷ us) = last_price u us

  foldl_ends :
      (h : Hloc) (t : Trade) (ts : List Trade)
      → ((foldl step h (t ∷ ts)).open_price ≡ h.open_price)
        × ((foldl step h (t ∷ ts)).close ≡ last_price t ts)
  foldl_ends h t [] = (refl, refl)
  foldl_ends h t (u ∷ us) = foldl_ends (step h t) u us

  either :
      (n : NumberWithPrecision) (t : Trade) (ts : List Trade)
      → (n ≡ t.price) ⊎ IsReached n (t ∷ ts)
      → IsReached n (t ∷ ts)
  either n t ts (inl h) = inl h
  either n t ts (inr h) = h

  -- A candle of a period from `s` on with these trades: it opens with the price of the first and
  -- closes with that of the last, and its low and its high are prices of trades, below and above
  -- all of them.
  pub record IsCandle (s : ℕ) (t : Trade) (ts : List Trade) (h : Hloc) : Type 0 where
    pub starts : h.period_start ≡ s
    pub opens : h.open_price ≡ t.price
    pub closes : h.close ≡ last_price t ts
    pub spans : All (Spans h) (t ∷ ts)
    pub low_reached : IsReached h.low (t ∷ ts)
    pub high_reached : IsReached h.high (t ∷ ts)

  summary-IsCandle :
      (s : ℕ) (t : Trade) (ts : List Trade)
      → All (λ u. HasPrecision u.price) (t ∷ ts)
      → IsCandle s t ts (foldl step (init s t) (t ∷ ts))
  summary-IsCandle s t ts a =
      let (_, _, start, spans) = foldl_range (init s t) (t ∷ ts) a.0 a.0 a in
      let (low, high) = foldl-IsReached (init s t) (t ∷ ts) in
      let ends = foldl_ends (init s t) t ts in
      record {
        starts = start;
        opens = ends.0;
        closes = ends.1;
        spans = spans;
        low_reached = either _ t ts low;
        high_reached = either _ t ts high;
      }

  filter-precision :
      (keep : Trade → Bool) (ts : List Trade)
      → All (λ t. HasPrecision t.price) ts
      → All (λ t. HasPrecision t.price) (filter keep ts)
  filter-precision keep [] a = tt
  filter-precision keep (t ∷ ts) a = ground (arith, filter-precision keep ts a.1)

  -- On trades of one market, whose prices have the precision p, in the order of time, and on
  -- periods in order: there is a candle for each period that has a trade, and no other.
  pub buckets-Chart :
      (low : ℕ) (ws : List (ℕ × ℕ)) (ts : List Trade)
      → InOrder low ws
      → IsOrdered ts
      → All (λ t. HasPrecision t.price) ts
      → Chart IsCandle ts ws (buckets init step ws ts)
  buckets-Chart low ws ts o h a =
      subst (Chart IsCandle ts ws) (sym (buckets-eq-summaries init step low ws ts o h)) (
        summaries-Chart IsCandle init step (All (λ t. HasPrecision t.price)) summary-IsCandle ws ts
          (λ s e. filter-precision (within s e) ts a))

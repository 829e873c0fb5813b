-- ===== src/Statistics/Buckets/Laws.antt =====
-- The loop of src/domain/statistics/hloc.rs and volume.rs against sums over each period.
use risq.Base.{
  ℕ, ◌≡◌, ◌≤◌, refl, sym, Bool, true, false, ◌&&◌, Option, none, some, List, [], ◌∷◌, ltb, leb,
  arith, filter, All, All-imp, Bool-cases, inl, inr, ltb→le,
}
use mathlib.Core.List.{foldl}
use native.Mathlib.Nat.{le_trans}
use risq.Statistics.Trade.{Trade}
use risq.Statistics.History.{IsOrdered}
use risq.Statistics.Buckets.{skip, fill, buckets, period, push}

abbrev pub within : ℕ → ℕ → Trade → Bool
within start end t = leb start t.timestamp && ltb t.timestamp end

abbrev from_time : ℕ → Trade → Bool
from_time start t = leb start t.timestamp

abbrev before_time : ℕ → Trade → Bool
before_time end t = ltb t.timestamp end

-- Periods in order, none of them reaching into the next.
abbrev pub InOrder : ℕ → List (ℕ × ℕ) → Type 0
InOrder start [] = Unit
InOrder start ((s, e) ∷ ws) = (start ≤ s) × (s ≤ e) × InOrder e ws

filter-All :
    (start : ℕ) (ts : List Trade)
    → All (λ u. start ≤ u.timestamp) ts
    → filter (from_time start) ts ≡ ts
filter-All start [] h = refl
filter-All start (t ∷ ts) h = ground (arith, filter-All start ts h.1)

filter-none :
    (end : ℕ) (ts : List Trade) → All (λ u. end ≤ u.timestamp) ts → filter (before_time end) ts ≡ []
filter-none end [] h = refl
filter-none end (t ∷ ts) h = ground (arith, filter-none end ts h.1)

filter-filter :
    (p q r : Trade → Bool) (ts : List Trade)
    → ((t : Trade) → (q t && p t) ≡ r t)
    → filter p (filter q ts) ≡ filter r ts
filter-filter p q r [] h = refl
filter-filter p q r (t ∷ ts) h = ground (arith, h t, filter-filter p q r ts h)

All-filter :
    (start : ℕ) (p : Trade → Bool) (ts : List Trade)
    → All (λ u. start ≤ u.timestamp) ts
    → All (λ u. start ≤ u.timestamp) (filter p ts)
All-filter start p [] h = tt
All-filter start p (t ∷ ts) h = ground (arith, All-filter start p ts h.1)

pub filter-IsOrdered : (p : Trade → Bool) (ts : List Trade) → IsOrdered ts → IsOrdered (filter p ts)
filter-IsOrdered p [] h = tt
filter-IsOrdered p (t ∷ ts) h =
    ground (arith, filter-IsOrdered p ts h.1, All-filter t.timestamp p ts h.0)

All-raise :
    (start : ℕ) (t : Trade) (ts : List Trade)
    → start ≤ t.timestamp
    → IsOrdered (t ∷ ts)
    → All (λ u. start ≤ u.timestamp) (t ∷ ts)
All-raise start t ts le h = (le, All-imp ts (λ u k. le_trans le k) h.0)

skip-filter :
    (start : ℕ) (ts : List Trade) → IsOrdered ts → skip start ts ≡ filter (from_time start) ts
unfolding skip
skip-filter start [] h = refl
skip-filter start (t ∷ ts) h = elim (Bool-cases (ltb t.timestamp start)) [
  | inl early ↦ rw early (ground (arith, skip-filter start ts h.1))
  | inr kept ↦ rw kept (sym (filter-All start (t ∷ ts) (All-raise start t ts (ltb→le _ _ kept) h)))
]

within-raise :
    (low s e : ℕ) (t : Trade) → low ≤ s → (from_time low t && within s e t) ≡ within s e t
within-raise low s e t h = ground arith

from-raise : (s e : ℕ) (t : Trade) → s ≤ e → (from_time s t && from_time e t) ≡ from_time e t
from-raise s e t h = ground arith

InOrder-lower : (low high : ℕ) (ws : List (ℕ × ℕ)) → low ≤ high → InOrder high ws → InOrder low ws
InOrder-lower low high [] le h = tt
InOrder-lower low high ((s, e) ∷ ws) le h = (le_trans le h.0, h.1, h.2)

module _ {A : Type 0} (init : ℕ → Trade → A) (step : A → Trade → A) where
  -- The sum of the trades of one period.
  abbrev pub summary : ℕ → List Trade → Option A
  summary start [] = none
  summary start (t ∷ ts) = some (foldl step (init start t) (t ∷ ts))

  -- The specification: each period that has a trade, with the sum of its trades.
  unfoldable pub summaries : List (ℕ × ℕ) → List Trade → List A
  summaries [] ts = []
  summaries ((start, end) ∷ ws) ts =
      push init step (summary start (filter (within start end) ts)) (summaries ws ts)

  fill_lem :
      (end : ℕ) (current : A) (ts : List Trade)
      → IsOrdered ts
      → fill init step end current ts
        ≡ (foldl step current (filter (before_time end) ts), skip end ts)
  unfolding fill skip
  fill_lem end current [] h = refl
  fill_lem end current (t ∷ ts) h = elim (Bool-cases (ltb t.timestamp end)) [
    | inl more ↦ rw more (fill_lem end (step current t) ts h.1)
    | inr done ↦
        let none_left = filter-none end ts (All-raise end t ts (ltb→le _ _ done) h).1 in
        rw (done, none_left)
  ]

  period_lem :
      (start end : ℕ) (ts : List Trade)
      → IsOrdered ts
      → period init step start end ts ≡ (summary start (filter (before_time end) ts), skip end ts)
  unfolding skip
  period_lem start end [] h = refl
  period_lem start end (t ∷ ts) h = elim (Bool-cases (ltb t.timestamp end)) [
    | inl early ↦
        let filled = fill_lem end (init start t) (t ∷ ts) h in
        let open_end : leb end t.timestamp ≡ false = ground arith in rw (open_end, filled, early)
    | inr late ↦
        let none_left = filter-none end ts (All-raise end t ts (ltb→le _ _ late) h).1 in
        let closed : leb end t.timestamp ≡ true = ground arith in rw (late, closed, none_left)
  ]

  summaries-filter :
      (low : ℕ) (ws : List (ℕ × ℕ)) (ts : List Trade)
      → InOrder low ws
      → summaries ws (filter (from_time low) ts) ≡ summaries ws ts
  unfolding summaries
  summaries-filter low [] ts h = refl
  summaries-filter low ((s, e) ∷ ws) ts h =
      let same =
        filter-filter (within s e) (from_time low) (within s e) ts
          (λ t. within-raise low s e t h.0) in
      rw (same, summaries-filter low ws ts (InOrder-lower low e ws (ground arith) h.2))

  -- On trades in the order of time, and periods in order, the loop gives for each period that has
  -- a trade the sum of just the trades within it.
  pub buckets-eq-summaries :
      (low : ℕ) (ws : List (ℕ × ℕ)) (ts : List Trade)
      → InOrder low ws
      → IsOrdered ts
      → buckets init step ws ts ≡ summaries ws ts
  unfolding buckets summaries
  buckets-eq-summaries low [] ts o h = refl
  buckets-eq-summaries low ((s, e) ∷ ws) ts o h =
      let kept = filter (from_time s) ts in
      let kept_ordered = filter-IsOrdered (from_time s) ts h in
      let rest = filter (from_time e) kept in
      let rest_eq : rest ≡ filter (from_time e) ts =
        filter-filter (from_time e) (from_time s) (from_time e) ts (λ t. from-raise s e t o.1) in
      let here : filter (before_time e) kept ≡ filter (within s e) ts =
        filter-filter (before_time e) (from_time s) (within s e) ts (λ t. refl) in
      let later =
        buckets-eq-summaries e ws (filter (from_time e) ts) o.2
          (filter-IsOrdered (from_time e) ts h) in
      rw (
        skip-filter s ts h,
        period_lem s e kept kept_ordered,
        skip-filter e kept kept_ordered,
        rest_eq,
        here,
        later,
        summaries-filter e ws ts o.2,
      )

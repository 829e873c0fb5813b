-- ===== src/Statistics/Buckets/Chart.antt =====
-- What the loop of src/domain/statistics/hloc.rs and volume.rs shows of each period.
use mathlib.Core.List.{foldl}
use risq.Base.{ℕ, ◌≡◌, refl, List, [], ◌∷◌, filter}
use risq.Statistics.Trade.{Trade}
use risq.Statistics.Buckets.{push}
use risq.Statistics.Buckets.Laws.{within, summary, summaries}

module _ {A : Type 0} (Good : ℕ → Trade → List Trade → A → Type 0) where
  -- For a period from `s` on with these trades: nothing where there are none, else something good
  -- that comes first.
  abbrev pub OfPeriod : ℕ → List Trade → (List A → Type 0) → List A → Type 0
  OfPeriod s [] Next as_ = Next as_
  OfPeriod s (t ∷ ts) Next [] = ⊥
  OfPeriod s (t ∷ ts) Next (a ∷ as_) = Good s t ts a × Next as_

  -- Just one good thing for each period that has a trade, in the order of the periods.
  abbrev pub Chart : List Trade → List (ℕ × ℕ) → List A → Type 0
  Chart ts [] as_ = as_ ≡ []
  Chart ts ((s, e) ∷ ws) as_ = OfPeriod s (filter (within s e) ts) (Chart ts ws) as_

  pub Chart-nil : (ws : List (ℕ × ℕ)) → Chart [] ws []
  Chart-nil [] = refl
  Chart-nil ((s, e) ∷ ws) = Chart-nil ws

  module _ (init : ℕ → Trade → A) (step : A → Trade → A) (Q : List Trade → Type 0)
      (good : (s : ℕ) (t : Trade) (ts : List Trade)
        → Q (t ∷ ts)
        → Good s t ts (foldl step (init s t) (t ∷ ts))) where
    push-OfPeriod :
        (s : ℕ) (kept : List Trade) (Next : List A → Type 0) (rest : List A)
        → Q kept
        → Next rest
        → OfPeriod s kept Next (push init step (summary init step s kept) rest)
    push-OfPeriod s [] Next rest q h = h
    push-OfPeriod s (t ∷ kept) Next rest q h = (good s t kept q, h)

    pub summaries-Chart :
        (ws : List (ℕ × ℕ)) (ts : List Trade)
        → ((s e : ℕ) → Q (filter (within s e) ts))
        → Chart ts ws (summaries init step ws ts)
    unfolding summaries
    summaries-Chart [] ts q = refl
    summaries-Chart ((s, e) ∷ ws) ts q =
        push-OfPeriod s (filter (within s e) ts) (Chart ts ws) (summaries init step ws ts) (q s e)
          (summaries-Chart ws ts q)

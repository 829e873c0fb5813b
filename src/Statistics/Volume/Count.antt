-- ===== src/Statistics/Volume/Count.antt =====
-- The number of trades that src/domain/statistics/volume.rs gives.
use mathlib.Core.List.{foldl}
use native.Mathlib.Nat.{mod-eq_of_lt}
use risq.Base.{
  ℕ, ◌+◌, ◌%◌, ◌≡◌, ◌≤◌, ◌<◌, refl, ap, ◌∙◌, sym, Bool, List, [], ◌∷◌, filter, length, arith,
}
use risq.Amount.{u32_mod}
use risq.Statistics.Trade.{Trade}
use risq.Statistics.History.{IsOrdered}
use risq.Statistics.Buckets.{buckets, push}
use risq.Statistics.Buckets.Laws.{within, InOrder, summary, summaries, buckets-eq-summaries}
use risq.Statistics.Interval.Windows.{Tiles}
use risq.Statistics.Volume.{Volume, empty_volume, add_trade}

pub foldl_count :
    (v : Volume) (ts : List Trade)
    → v.num_trades + length ts < u32_mod
    → (foldl add_trade v ts).num_trades ≡ v.num_trades + length ts
foldl_count v [] h = omega arith
foldl_count v (t ∷ ts) h =
    let small : (v.num_trades + 1) % u32_mod ≡ v.num_trades + 1 = mod-eq_of_lt (omega (arith, h)) in
    foldl_count (add_trade v t) ts (rw small (omega (arith, h))) ∙ rw small (omega arith)

abbrev pub total : List Volume → ℕ
total [] = 0
total (v ∷ vs) = v.num_trades + total vs

push_total :
    (s : ℕ) (ts : List Trade) (vs : List Volume)
    → length ts < u32_mod
    → total (push empty_volume add_trade (summary empty_volume add_trade s ts) vs)
      ≡ length ts + total vs
push_total s [] vs h = omega arith
push_total s (t ∷ ts) vs h =
    ap (λ (n : ℕ). n + total vs)
      (foldl_count (empty_volume s t) (t ∷ ts) (omega (arith, h)) ∙ omega arith)

-- A trade of some time counts once: in the first period or later.
split_count :
    (a b d : ℕ) (ts : List Trade)
    → a ≤ b
    → b ≤ d
    → length (filter (within a d) ts)
      ≡ length (filter (within a b) ts) + length (filter (within b d) ts)
split_count a b d [] h k = refl
split_count a b d (t ∷ ts) h k = ground (arith, split_count a b d ts h k)

pub count_le : (p : Trade → Bool) (ts : List Trade) → length (filter p ts) ≤ length ts
count_le p [] = omega arith
count_le p (t ∷ ts) = ground (arith, count_le p ts)

-- The end of the last period.
abbrev pub last_end : ℕ → List (ℕ × ℕ) → ℕ
last_end start [] = start
last_end start ((s, e) ∷ ws) = last_end e ws

pub Tiles-end : (start end : ℕ) (ws : List (ℕ × ℕ)) → Tiles start end ws → start ≤ last_end start ws
Tiles-end start end [] h = omega arith
Tiles-end start end ((s, e) ∷ ws) h = omega (arith, h.0, h.1, Tiles-end e end ws h.3)

pub Tiles-order : (start end : ℕ) (ws : List (ℕ × ℕ)) → Tiles start end ws → InOrder start ws
Tiles-order start end [] h = tt
Tiles-order start end ((s, e) ∷ ws) h =
    (omega (arith, h.0), omega (arith, h.1), Tiles-order e end ws h.3)

none_within : (start : ℕ) (ts : List Trade) → 0 ≡ length (filter (within start start) ts)
none_within start [] = refl
none_within start (t ∷ ts) = ground (arith, none_within start ts)

summaries_total :
    (start end : ℕ) (ws : List (ℕ × ℕ)) (ts : List Trade)
    → Tiles start end ws
    → length ts < u32_mod
    → total (summaries empty_volume add_trade ws ts)
      ≡ length (filter (within start (last_end start ws)) ts)
unfolding summaries
summaries_total start end [] ts h small = none_within start ts
summaries_total start end ((s, e) ∷ ws) ts h small =
    let kept = filter (within s e) ts in
    let later = summaries empty_volume add_trade ws ts in
    push_total s kept later (omega (arith, count_le (within s e) ts, small))
    ∙ ap (λ (n : ℕ). length kept + n) (summaries_total e end ws ts h.3 small)
    ∙ sym (split_count s e (last_end e ws) ts (omega (arith, h.1)) (Tiles-end e end ws h.3))
    ∙ ap (λ n. length (filter (within n (last_end e ws)) ts)) h.0

-- Over periods without a gap, and fewer than 2 ^ 32 trades in the order of time, the numbers of
-- trades add up to the number of those from the first period's start to the last one's end: none is
-- lost or counted twice.
pub buckets_total :
    (start end : ℕ) (ws : List (ℕ × ℕ)) (ts : List Trade)
    → Tiles start end ws
    → IsOrdered ts
    → length ts < u32_mod
    → total (buckets empty_volume add_trade ws ts)
      ≡ length (filter (within start (last_end start ws)) ts)
buckets_total start end ws ts h o small =
    ap total
      (buckets-eq-summaries empty_volume add_trade start ws ts (Tiles-order start end ws h) o)
    ∙ summaries_total start end ws ts h small

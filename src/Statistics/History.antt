-- ===== src/Statistics/History.antt =====
-- The order of the history in src/domain/statistics/trade.rs, and `TradeHistory::insert`.
use mathlib.Core.List.{Perm}
use native.Mathlib.Nat.{le_trans}
use risq.Base.{
  ℕ, zero, suc, ◌≤◌, ◌<◌, ◌≡◌, true, ◌||◌, [], ◌∷◌, length, ltb, arith, get_elem?, insert_at,
  insert_at-perm, All, All-imp, All-insert_at, if◌then◌else◌, Bool-cases, inl, inr,
}
use risq.Base.Sorted.{Ascending}
use risq.Statistics.Trade.{Trade, TradeHistory, insert, insert_position, is_later}

-- No trade stands behind a later one.
abbrev pub IsOrdered : TradeHistory → Type 0
IsOrdered = Ascending (λ t. t.timestamp)

-- Where the loop stops in a longer list.
position-cons :
    (t : Trade) (ts : TradeHistory) (time n : ℕ)
    → insert_position (t ∷ ts) time (suc n) ≡ (
        if ltb 0 (insert_position ts time n) || ltb t.timestamp time
        then suc (insert_position ts time n)
        else 0)
unfolding insert_position
position-cons t ts time zero = ground arith
position-cons t ts time (suc n) = ground (arith, position-cons t ts time n)

later_low :
    (low time : ℕ) (ts : TradeHistory) (n : ℕ)
    → All (λ u. low ≤ u.timestamp) ts
    → is_later time (get_elem? ts n) ≡ true
    → low ≤ time
later_low low time [] n h later = cc
later_low low time (u ∷ ts) zero h later = ground arith
later_low low time (u ∷ ts) (suc n) h later = later_low low time ts n h.1 later

-- A place behind the front means that some trade is earlier.
position_pos :
    (low time : ℕ) (ts : TradeHistory) (n : ℕ)
    → All (λ u. low ≤ u.timestamp) ts
    → 0 < insert_position ts time n
    → low ≤ time
unfolding insert_position
position_pos low time ts zero h p = ground arith
position_pos low time ts (suc n) h p =
    ground (arith, later_low low time ts n h, position_pos low time ts n h)

insert_at-IsOrdered :
    (t : Trade) (ts : TradeHistory)
    → IsOrdered ts
    → IsOrdered (insert_at (insert_position ts t.timestamp (length ts)) t ts)
unfolding insert_position
insert_at-IsOrdered t [] h = (tt, tt)
insert_at-IsOrdered t (u ∷ ts) h =
    let time = t.timestamp in
    let p : ℕ = insert_position ts time (length ts) in
    let behind = ltb 0 p || ltb u.timestamp time in
    rw (position-cons u ts time (length ts)) (elim (Bool-cases behind) [
      | inl yes_ ↦
          let low : u.timestamp ≤ time =
            ground (arith, position_pos u.timestamp time ts (length ts) h.0) in
          rw yes_ (
            All-insert_at (λ v. u.timestamp ≤ v.timestamp) p t ts low h.0,
            insert_at-IsOrdered t ts h.1,
          )
      | inr no_ ↦
          let low : time ≤ u.timestamp = ground arith in
          rw no_ ((low, All-imp ts (λ v k. le_trans low k) h.0), h)
    ])

-- An insertion adds the trade and keeps all others.
pub insert-perm : (ts : TradeHistory) (t : Trade) → Perm (insert ts t) (t ∷ ts)
unfolding insert
insert-perm ts t = insert_at-perm (insert_position ts t.timestamp (length ts)) t ts

-- An insertion keeps the order of time.
pub insert-IsOrdered : (ts : TradeHistory) (t : Trade) → IsOrdered ts → IsOrdered (insert ts t)
unfolding insert
insert-IsOrdered ts t h = insert_at-IsOrdered t ts h

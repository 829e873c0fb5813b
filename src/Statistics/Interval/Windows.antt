-- ===== src/Statistics/Interval/Windows.antt =====
-- The periods that `IntervalIterator` of src/domain/statistics/interval.rs gives.
use risq.Base.{
  ◌>>=◌, ℕ, zero, suc, ◌+◌, ◌≡◌, ◌≢◌, ◌≤◌, ◌<◌, refl, ap, ◌∙◌, sym, Option, none, some, List, [],
  ◌∷◌, arith, ltb, nat_beq, inl, inr, Bool-cases, ltb→lt, ltb→le,
}
use risq.Offer.{from_secs}
use risq.Statistics.Interval.{
  Interval, minute, half_hour, hour, half_day, day, week, month, year, Chrono, add_interval,
  windows, days, appropriate_floor, intervals,
}
use risq.Statistics.Interval.Floor.{IsChrono, Countable, IsBefore, floor-IsBefore}

-- Periods that follow one another without a gap, from `start` to `end` or past it; none is empty.
abbrev pub Tiles : ℕ → ℕ → List (ℕ × ℕ) → Type 0
Tiles start end [] = end ≤ start
Tiles start end ((s, e) ∷ rest) = (s ≡ start) × (s < e) × (s < end) × Tiles e end rest

abbrev pub AllTiles : ℕ → ℕ → Option (List (ℕ × ℕ)) → Type 0
AllTiles start end none = ⊥
AllTiles start end (some ws) = Tiles start end ws

-- Periods from a time no later than `start` to `end`.
abbrev pub Covers : ℕ → ℕ → Option (List (ℕ × ℕ)) → Type 0
Covers start end none = ⊥
Covers start end (some ws) = (first : ℕ) × (first ≤ start) × Tiles first end ws

module _ {T : Type 0} (c : Chrono T) {last_time : ℕ} (laws : IsChrono c last_time) where
  -- Adding an interval succeeds and leads to a later time.
  add_later :
      (i : Interval) (t : T)
      → Countable c laws t i t
      → c.timestamp t < last_time
      → (u : T) × (add_interval c t i ≡ some u)
        × (c.timestamp t < c.timestamp u)
        × Countable c laws t i u
  unfolding add_interval
  add_later minute t k l = (
    c.add t (from_secs 60),
    refl,
    omega (arith, laws.add_time t (from_secs 60) l (omega arith)),
    tt,
  )
  add_later half_hour t k l = (
    c.add t (from_secs 1800),
    refl,
    omega (arith, laws.add_time t (from_secs 1800) l (omega arith)),
    tt,
  )
  add_later hour t k l = (
    c.add t (from_secs 3600),
    refl,
    omega (arith, laws.add_time t (from_secs 3600) l (omega arith)),
    tt,
  )
  add_later half_day t k l = (
    c.add t (from_secs 43200),
    refl,
    omega (arith, laws.add_time t (from_secs 43200) l (omega arith)),
    tt,
  )
  add_later day t k l =
      (c.add t (days 1), refl, omega (arith, laws.add_time t (days 1) l (omega arith)), tt)
  add_later week t k l =
      (c.add t (days 7), refl, omega (arith, laws.add_time t (days 7) l (omega arith)), tt)
  add_later month t k l = elim (Bool-cases (nat_beq ((c.fields t).month0 + 1) 12)) [
    | inl last ↦
        let (v, set_v, fields_v, at, _) = laws.first_month t k in
        let same_year : (c.fields v).year ≡ (c.fields t).year = ap (λ f. f.year) fields_v in
        let (u, set, fields) =
          laws.year_next v (ap (λ f. f.day0) fields_v ∙ k) (omega (arith, at)) in
        let first = ap (λ f. f.day0) fields ∙ ap (λ f. f.day0) fields_v ∙ k in
        let y = ap (λ f. f.year) fields in
        (
          u,
          rw (last, set_v) (ap (λ (y : ℕ). c.with_year v (y + 1)) (sym same_year) ∙ set),
          laws.month_order t u k first (omega (arith, y, same_year, laws.month_lt t)),
          first,
        )
    | inr other ↦
        let below : (c.fields t).month0 + 1 < 12 = ground (arith, laws.month_lt t) in
        let (u, set, fields) = laws.month_set t ((c.fields t).month0 + 1) k below in
        let first = ap (λ f. f.day0) fields ∙ k in
        let y = ap (λ f. f.year) fields in
        let m = ap (λ f. f.month0) fields in
        (u, rw other set, laws.month_order t u k first (omega (arith, y, m)), first)
  ]
  add_later year t k l =
      let (u, set, fields) = laws.year_next t k l in
      let first = ap (λ f. f.day0) fields ∙ k in
      let y = ap (λ f. f.year) fields in
      let m = ap (λ f. f.month0) fields in
      (u, set, laws.month_order t u k first (omega (arith, y, m)), first)

  -- With fuel for each nanosecond, the periods run on from the start to the end.
  pub windows_tile :
      (fuel : ℕ) (i : Interval) (t end : T)
      → Countable c laws t i t
      → c.timestamp end ≤ last_time
      → 0 < fuel
      → c.timestamp end < fuel + c.timestamp t
      → AllTiles (c.timestamp t) (c.timestamp end) (windows c fuel i t end)
  unfolding windows
  windows_tile zero i t end k l z f = absurd (omega arith)
  windows_tile (suc fuel) i t end k l z f =
      elim (Bool-cases (ltb (c.timestamp t) (c.timestamp end))) [
        | inl more ↦
            let before : c.timestamp t < c.timestamp end = ltb→lt _ _ more in
            let (u, added, later, countable) = add_later i t k (omega arith) in
            let rest = windows_tile fuel i u end countable l (omega arith) (omega arith) in
            rw (more, added) (join (windows c fuel i u end) before later rest)
        | inr done ↦ rw done (ltb→le _ _ done)
      ]
    where
      join :
          {a b e : ℕ} (o : Option (List (ℕ × ℕ)))
          → a < e
          → a < b
          → AllTiles b e o
          → AllTiles a e (o >>= λ rest. some ((a, b) ∷ rest))
      join none h k t = t
      join (some ws) h k t = (refl, k, h, t)

  -- Under the laws of `chrono`, and for all intervals but the half hour and the half day,
  -- `intervals` does not panic and has fuel enough, if the end has a floor and an interval can be
  -- added to it: it gives periods without a gap, from no later than `start` to the floor of `end`
  -- and an interval more, if the calendar reaches these times.
  pub intervals_tile :
      (i : Interval) (start end : ℕ) (floor last : T)
      → i ≢ half_hour
      → i ≢ half_day
      → appropriate_floor c i (c.from_timestamp end) ≡ some floor
      → add_interval c floor i ≡ some last
      → c.timestamp last ≤ last_time
      → start ≤ last_time
      → Covers start (c.timestamp last) (intervals c i start end)
  unfolding intervals
  intervals_tile i start end floor last p q floored added reach begins =
      let (first, found, before, countable) =
        floor_some (appropriate_floor c i (c.from_timestamp start))
          (floor-IsBefore c laws (c.from_timestamp start) i p q) in
      let tiles =
        windows_tile (suc (c.timestamp last)) i first last countable reach (omega arith)
          (omega arith) in
      rw (found, floored, added)
        (covers _ _ (windows c (suc (c.timestamp last)) i first last)
          (omega (arith, before, laws.of_timestamp start begins)) tiles)
    where
      floor_some :
          (o : Option T)
          → IsBefore c laws (c.from_timestamp start) i o
          → (u : T) × (o ≡ some u)
            × (c.timestamp u ≤ c.timestamp (c.from_timestamp start))
            × Countable c laws (c.from_timestamp start) i u
      floor_some none f = absurd f
      floor_some (some u) f = (u, refl, f.0, f.1)

      covers : (a e : ℕ) (o : Option (List (ℕ × ℕ))) → a ≤ start → AllTiles a e o → Covers start e o
      covers a e none h t = t
      covers a e (some ws) h t = (a, h, t)

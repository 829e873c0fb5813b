-- ===== src/Statistics/Interval/Floor.antt =====
-- `appropriate_floor` and `add` of src/domain/statistics/interval.rs, under the laws of `chrono`.
use risq.Base.{
  ◌>>=◌, ℕ, ◌+◌, ◌*◌, ◌≡◌, ◌≢◌, ◌≤◌, ◌<◌, ◌↔◌, refl, ap, ◌∙◌, Option, none, some, arith,
}
use risq.Offer.{from_secs}
use risq.Statistics.Interval.{
  Interval, minute, half_hour, hour, half_day, day, week, month, year, Fields, Chrono, floor_date,
  floor_hour, floor_minute, appropriate_floor, days,
}

-- What the documentation of `chrono` says of the operations, where they are used: a field is set
-- and the others stay, and the time moves by the difference. The times are those from UNIX_EPOCH
-- on. `chrono` panics past the last year it can represent, some 260,000 years from now: `last_time`
-- is a time before that, and no law speaks of the conversion or the sum of a later time.
pub record IsChrono {T : Type 0} (c : Chrono T) (last_time : ℕ) : Type 0 where
  pub second_lt : (t : T) → (c.fields t).second < 60
  pub minute_lt : (t : T) → (c.fields t).minute < 60
  pub hour_lt : (t : T) → (c.fields t).hour < 24
  pub day0_lt : (t : T) → (c.fields t).day0 < 31
  pub weekday_lt : (t : T) → c.num_days_from_monday t < 7
  pub second_zero :
      (t : T)
      → (u : T) × (c.with_second t 0 ≡ some u)
        × (c.fields u ≡ record (c.fields t) { second = 0 })
        × (c.timestamp u + from_secs (c.fields t).second ≡ c.timestamp t)
  pub minute_set :
      (t : T) (n : ℕ)
      → n < 60
      → (u : T) × (c.with_minute t n ≡ some u)
        × (c.fields u ≡ record (c.fields t) { minute = n })
        × (c.timestamp u + from_secs ((c.fields t).minute * 60)
            ≡ c.timestamp t + from_secs (n * 60))
  pub hour_set :
      (t : T) (n : ℕ)
      → n < 24
      → (u : T) × (c.with_hour t n ≡ some u)
        × (c.fields u ≡ record (c.fields t) { hour = n })
        × (c.timestamp u + from_secs ((c.fields t).hour * 3600)
            ≡ c.timestamp t + from_secs (n * 3600))
  pub first_day :
      (t : T)
      → (u : T) × (c.with_day0 t 0 ≡ some u)
        × (c.fields u ≡ record (c.fields t) { day0 = 0 })
        × (c.timestamp u + days (c.fields t).day0 ≡ c.timestamp t)
  pub first_month :
      (t : T)
      → (c.fields t).day0 ≡ 0
      → (u : T) × (c.with_month0 t 0 ≡ some u)
        × (c.fields u ≡ record (c.fields t) { month0 = 0 })
        × (c.timestamp u ≤ c.timestamp t)
        × (c.timestamp t ≤ c.timestamp u + days 335)
  pub month_set :
      (t : T) (n : ℕ)
      → (c.fields t).day0 ≡ 0
      → n < 12
      → (u : T) × (c.with_month0 t n ≡ some u) × (c.fields u ≡ record (c.fields t) { month0 = n })
  -- Years are limited, so that the next year exists up to some time.
  pub year_next :
      (t : T)
      → (c.fields t).day0 ≡ 0
      → c.timestamp t < last_time
      → (u : T) × (c.with_year t ((c.fields t).year + 1) ≡ some u)
        × (c.fields u ≡ record (c.fields t) { year = (c.fields t).year + 1 })
  -- The first of an earlier month is earlier.
  pub month_order :
      (t u : T)
      → (c.fields t).day0 ≡ 0
      → (c.fields u).day0 ≡ 0
      → (c.fields t).year * 12 + (c.fields t).month0 < (c.fields u).year * 12 + (c.fields u).month0
      → c.timestamp t < c.timestamp u
  pub month_lt : (t : T) → (c.fields t).month0 < 12
  -- Up to that time, a week more is there too.
  pub add_time :
      (t : T) (n : ℕ)
      → c.timestamp t < last_time
      → n ≤ days 7
      → c.timestamp (c.add t n) ≡ c.timestamp t + n
  pub of_timestamp : (n : ℕ) → n ≤ last_time → c.timestamp (c.from_timestamp n) ≡ n
  pub sub_le : (t : T) (n : ℕ) → c.timestamp (c.sub t n) ≤ c.timestamp t
  -- Days back in the same week, as long as they do not lead to a time before UNIX_EPOCH.
  pub sub_days :
      (t : T) (n : ℕ)
      → n ≤ c.num_days_from_monday t
      → days n ≤ c.timestamp t
      → (c.timestamp (c.sub t (days n)) + days n ≡ c.timestamp t)
        × (c.num_days_from_monday (c.sub t (days n)) + n ≡ c.num_days_from_monday t)
        × ((c.fields (c.sub t (days n))).hour ≡ (c.fields t).hour)
        × ((c.fields (c.sub t (days n))).minute ≡ (c.fields t).minute)
        × ((c.fields (c.sub t (days n))).second ≡ (c.fields t).second)

module _ {T : Type 0} (c : Chrono T) {last_time : ℕ} (laws : IsChrono c last_time) (t : T) where
  -- Under the laws of `chrono`, the floor for half hours fails exactly in the first half of an
  -- hour: there the code runs into `unreachable!()`.
  pub half_hour_panics : (appropriate_floor c half_hour t ≡ none) ↔ ((c.fields t).minute < 30)
  unfolding appropriate_floor floor_minute floor_hour floor_date
  half_hour_panics =
      let (u, set, fields, _) = laws.second_zero t in
      let (v, set_30, _, _) = laws.minute_set u 30 (omega arith) in
      let (w, set_0, _, _) = laws.minute_set u 0 (omega arith) in
      let (x, set_hour, _, _) = laws.hour_set w 0 (omega arith) in
      let same : (c.fields u).minute ≡ (c.fields t).minute = ap (λ f. f.minute) fields in
      rw (set, set_30, set_0, set_hour) (ground (arith, same))

  -- Under the laws of `chrono`, the floor for half days fails exactly before noon.
  pub half_day_panics : (appropriate_floor c half_day t ≡ none) ↔ ((c.fields t).hour < 12)
  unfolding appropriate_floor floor_minute floor_hour floor_date
  half_day_panics =
      let (u, set, fields, _) = laws.second_zero t in
      let (v, set_0, fields_v, _) = laws.minute_set u 0 (omega arith) in
      let (w, noon, _, _) = laws.hour_set v 12 (omega arith) in
      let (x, midnight, _, _) = laws.hour_set v 0 (omega arith) in
      let same : (c.fields v).hour ≡ (c.fields t).hour =
        ap (λ f. f.hour) fields_v ∙ ap (λ f. f.hour) fields in
      rw (set, set_0, noon, midnight) (ground (arith, same))

  -- Months and years are counted from a first day.
  abbrev pub Countable : Interval → T → Type 0
  Countable month u = (c.fields u).day0 ≡ 0
  Countable year u = (c.fields u).day0 ≡ 0
  Countable _ u = Unit

  -- A time to count from: no later than the given one.
  abbrev pub IsBefore : Interval → Option T → Type 0
  IsBefore i none = ⊥
  IsBefore i (some u) = (c.timestamp u ≤ c.timestamp t) × Countable i u

  -- The start of the hour.
  pub to_hour :
      (u : T) × ((do x ← c.with_second t 0; c.with_minute x 0) ≡ some u)
      × (c.fields u ≡ record (c.fields t) { minute = 0; second = 0 })
      × (c.timestamp u ≤ c.timestamp t)
      × (c.timestamp t < c.timestamp u + from_secs 3600)
  to_hour =
      let (u, set, fields, at) = laws.second_zero t in
      let (v, set_0, fields_v, at_v) = laws.minute_set u 0 (omega arith) in
      let same : (c.fields u).minute ≡ (c.fields t).minute = ap (λ f. f.minute) fields in
      (
        v,
        rw set set_0,
        fields_v ∙ ap (λ (f : Fields). record f { minute = 0 }) fields,
        omega (arith, at, at_v),
        omega (arith, at, at_v, same, laws.second_lt t, laws.minute_lt t),
      )

  -- The start of the day.
  pub to_day :
      (u : T) × ((do x ← c.with_second t 0; y ← c.with_minute x 0; c.with_hour y 0) ≡ some u)
      × (c.fields u ≡ record (c.fields t) { hour = 0; minute = 0; second = 0 })
      × (c.timestamp u ≤ c.timestamp t)
      × (c.timestamp t < c.timestamp u + from_secs 86400)
  to_day =
      let (u, set, fields, at) = laws.second_zero t in
      let (v, set_0, fields_v, at_v) = laws.minute_set u 0 (omega arith) in
      let (w, midnight, fields_w, at_w) = laws.hour_set v 0 (omega arith) in
      let same : (c.fields u).minute ≡ (c.fields t).minute = ap (λ f. f.minute) fields in
      let same_hour : (c.fields v).hour ≡ (c.fields t).hour =
        ap (λ f. f.hour) fields_v ∙ ap (λ f. f.hour) fields in
      (
        w,
        rw (set, set_0) midnight,
        fields_w
            ∙ ap (λ (f : Fields). record f { hour = 0 }) fields_v
            ∙ ap (λ (f : Fields). record f { hour = 0; minute = 0 }) fields,
        omega (arith, at, at_v, at_w),
        omega (
          arith,
          at,
          at_v,
          at_w,
          same,
          same_hour,
          laws.second_lt t,
          laws.minute_lt t,
          laws.hour_lt t,
        ),
      )

  -- What follows the start of the day.
  pub after_day :
      (g : T → Option T)
      → (do x ← c.with_second t 0; y ← c.with_minute x 0; z ← c.with_hour y 0; g z) ≡ g to_day.0
  unfolding to_day
  after_day g =
      let (u, set, fields, at) = laws.second_zero t in
      let (v, set_0, fields_v, at_v) = laws.minute_set u 0 (omega arith) in
      let (w, midnight, fields_w, at_w) = laws.hour_set v 0 (omega arith) in
      rw (set, set_0, midnight)

  -- Under the laws of `chrono`, and for all intervals but the half hour and the half day, there is
  -- a floor, from which intervals can be counted.
  pub floor-IsBefore :
      (i : Interval) → i ≢ half_hour → i ≢ half_day → IsBefore i (appropriate_floor c i t)
  unfolding appropriate_floor floor_minute floor_hour floor_date
  floor-IsBefore half_hour p q = absurd (p refl)
  floor-IsBefore half_day p q = absurd (q refl)
  floor-IsBefore minute p q =
      let (u, set, fields, at) = laws.second_zero t in rw set (omega (arith, at), tt)
  floor-IsBefore hour p q = let (u, set, fields, before, near) = to_hour in rw set (before, tt)
  floor-IsBefore day p q = let (u, set, fields, before, near) = to_day in rw set (before, tt)
  floor-IsBefore week p q =
      let (u, _, fields, before, _) = to_day in
      rw (after_day (floor_date c week))
        (omega (arith, laws.sub_le u (days (c.num_days_from_monday u))), tt)
  floor-IsBefore month p q =
      let (u, _, fields, before, _) = to_day in
      let (v, set, fields_v, at_v) = laws.first_day u in
      rw (after_day (floor_date c month), set)
        (omega (arith, at_v, before), ap (λ f. f.day0) fields_v)
  floor-IsBefore year p q =
      let (u, _, fields, before, _) = to_day in
      let (v, set, fields_v, at_v) = laws.first_day u in
      let (w, set_w, fields_w, at_w, _) = laws.first_month v (ap (λ f. f.day0) fields_v) in
      rw (after_day (floor_date c year), set, set_w)
        (omega (arith, at_v, at_w, before), ap (λ f. f.day0) fields_w ∙ ap (λ f. f.day0) fields_v)

-- ===== src/Statistics/Interval/Near.antt =====
-- What `appropriate_floor` of src/domain/statistics/interval.rs gives, under the laws of `chrono`.
use risq.Base.{ℕ, ◌+◌, ◌≡◌, ◌≤◌, ◌<◌, Option, none, some}
use risq.Offer.{from_secs}
use risq.Statistics.Interval.{
  Interval, minute, half_hour, hour, half_day, day, week, month, year, Fields, Chrono, days,
}
use risq.Statistics.Interval.Floor.{IsChrono}

-- No period is longer.
abbrev pub longest : Interval → ℕ
longest minute = from_secs 60
longest half_hour = from_secs 1800
longest hour = from_secs 3600
longest half_day = from_secs 43200
longest day = days 1
longest week = days 7
longest month = days 31
longest year = days 366

abbrev pub Midnight : Fields → Type 0
Midnight f = (f.hour ≡ 0) × (f.minute ≡ 0) × (f.second ≡ 0)

module _ {T : Type 0} (c : Chrono T) {last_time : ℕ} (laws : IsChrono c last_time) (t : T) where
  -- The first time of a period: a minute or an hour starts with its smaller fields at 0, a day at
  -- midnight, a week at midnight of a Monday, a month on the first day of the month of the time,
  -- and a year on the first day of the first month of its year.
  abbrev pub Starts : Interval → T → Type 0
  Starts minute u = (c.fields u).second ≡ 0
  Starts half_hour u = ⊥
  Starts hour u = ((c.fields u).minute ≡ 0) × ((c.fields u).second ≡ 0)
  Starts half_day u = ⊥
  Starts day u = Midnight (c.fields u)
  Starts week u = (c.num_days_from_monday u ≡ 0) × Midnight (c.fields u)
  Starts month u =
      ((c.fields u).year ≡ (c.fields t).year)
      × ((c.fields u).month0 ≡ (c.fields t).month0)
      × ((c.fields u).day0 ≡ 0)
      × Midnight (c.fields u)
  Starts year u =
      ((c.fields u).year ≡ (c.fields t).year)
      × ((c.fields u).month0 ≡ 0)
      × ((c.fields u).day0 ≡ 0)
      × Midnight (c.fields u)

  abbrev pub IsStart : Interval → Option T → Type 0
  IsStart i none = ⊥
  IsStart i (some u) =
      (c.timestamp u ≤ c.timestamp t) × (c.timestamp t < c.timestamp u + longest i) × Starts i u

-- ===== src/Statistics/Interval.antt =====
-- src/domain/statistics/interval.rs. The calendar is that of the crate `chrono`, a parameter of the
-- model: its operations, and the laws that its documentation gives.
pub mod Floor
pub mod Near
pub mod Windows
use risq.Base.{
  ◌>>=◌, ℕ, zero, suc, ◌+◌, ◌-◌, ◌*◌, ◌≡◌, ◌≤◌, ◌<◌, Bool, ◌&&◌, Option, none, some, List, [], ◌∷◌,
  ltb, leb, nat_beq, if◌then◌else◌,
}
use risq.Offer.{from_secs}

pub data Interval : Type 0 where
  minute half_hour hour half_day day week month year : Interval

-- The fields of a date and time that `chrono` lets a program set. Fractions of a second stay.
pub record Fields : Type 0 where
  pub year : ℕ
  pub month0 : ℕ
  pub day0 : ℕ
  pub hour : ℕ
  pub minute : ℕ
  pub second : ℕ

-- `DateTime<Utc>`. An operation gives `none` where it would make an invalid date or time.
pub record Chrono (T : Type 0) : Type 0 where
  pub fields : T → Fields
  -- nanoseconds since UNIX_EPOCH, the conversion from and to `SystemTime`
  pub timestamp : T → ℕ
  pub from_timestamp : ℕ → T
  pub num_days_from_monday : T → ℕ
  pub with_second : T → ℕ → Option T
  pub with_minute : T → ℕ → Option T
  pub with_hour : T → ℕ → Option T
  pub with_day0 : T → ℕ → Option T
  pub with_month0 : T → ℕ → Option T
  pub with_year : T → ℕ → Option T
  -- `t + Duration` and `t - Duration`, in nanoseconds
  pub add : T → ℕ → T
  pub sub : T → ℕ → T

abbrev pub days : ℕ → ℕ
days n = from_secs (n * 86400)

-- `default_for_range`: `to` before `from` gives `year`.
unfoldable pub default_for_range : ℕ → ℕ → Interval
default_for_range from to =
    let dur : ℕ = to - from in
    if ltb to from
    then year
    else if leb dur (from_secs 3600)
    then minute
    else if leb dur (days 1)
    then half_hour
    else if leb dur (days 3)
    then hour
    else if leb dur (days 7)
    then half_day
    else if leb dur (days 60)
    then day
    else if leb dur (days 365)
    then week
    else if leb dur (days 1826)
    then month
    else year

module _ {T : Type 0} (c : Chrono T) where
  -- The third `match` of `appropriate_floor`; `none` is `unreachable!()`, or an `unwrap` that
  -- fails.
  unfoldable pub floor_date : Interval → T → Option T
  floor_date week time = some (c.sub time (days (c.num_days_from_monday time)))
  floor_date month time = c.with_day0 time 0
  floor_date year time = do t ← c.with_day0 time 0; c.with_month0 t 0
  floor_date _ time = none

  -- The second `match`.
  unfoldable pub floor_hour : Interval → T → Option T
  floor_hour half_day time =
      if leb 12 (c.fields time).hour
      then c.with_hour time 12
      else (do t ← c.with_hour time 0; floor_date half_day t)
  floor_hour day time = c.with_hour time 0
  floor_hour self time = do t ← c.with_hour time 0; floor_date self t

  -- The first `match`.
  unfoldable pub floor_minute : Interval → T → Option T
  floor_minute minute time = some time
  floor_minute half_hour time =
      if leb 30 (c.fields time).minute
      then c.with_minute time 30
      else (do t ← c.with_minute time 0; floor_hour half_hour t)
  floor_minute hour time = c.with_minute time 0
  floor_minute self time = do t ← c.with_minute time 0; floor_hour self t

  unfoldable pub appropriate_floor : Interval → T → Option T
  appropriate_floor self time = do t ← c.with_second time 0; floor_minute self t

  -- `Add<Interval>`; `none` is an `unwrap` that fails. The source counts months from 1 here.
  unfoldable pub add_interval : T → Interval → Option T
  add_interval time minute = some (c.add time (from_secs 60))
  add_interval time half_hour = some (c.add time (from_secs 1800))
  add_interval time hour = some (c.add time (from_secs 3600))
  add_interval time half_day = some (c.add time (from_secs 43200))
  add_interval time day = some (c.add time (days 1))
  add_interval time week = some (c.add time (days 7))
  add_interval time month =
      if nat_beq ((c.fields time).month0 + 1) 12
      then (do t ← c.with_month0 time 0; c.with_year t ((c.fields time).year + 1))
      else c.with_month0 time ((c.fields time).month0 + 1)
  add_interval time year = c.with_year time ((c.fields time).year + 1)

  -- `IntervalIterator`, run to its end: the pairs of a period's start and end. `none` is a panic of
  -- `add`, or the fuel's end.
  unfoldable pub windows : ℕ → Interval → T → T → Option (List (ℕ × ℕ))
  windows zero interval current end = none
  windows (suc fuel) interval current end =
      if ltb (c.timestamp current) (c.timestamp end)
      then (do
        next ← add_interval current interval
        rest ← windows fuel interval next end
        some ((c.timestamp current, c.timestamp next) ∷ rest))
      else some []

  -- `Interval::intervals`. Each period takes a nanosecond at least, so this is fuel for all.
  unfoldable pub intervals : Interval → ℕ → ℕ → Option (List (ℕ × ℕ))
  intervals self start end = do
    first ← appropriate_floor self (c.from_timestamp start)
    floor ← appropriate_floor self (c.from_timestamp end)
    last ← add_interval floor self
    windows (suc (c.timestamp last)) self first last

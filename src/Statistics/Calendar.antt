-- ===== src/Statistics/Calendar.antt =====
-- A calendar of months of 30 days, an instance of the `chrono` that
-- src/domain/statistics/interval.rs is written over: it shows that the laws of `IsChrono` can hold.
use risq.Base.{
  ℕ, ◌+◌, ◌-◌, ◌*◌, ◌/◌, ◌%◌, ◌≡◌, ◌<◌, refl, Option, none, some, arith, if◌then◌else◌, ltb,
}
use risq.Statistics.Interval.{Fields, Chrono}
use risq.Statistics.Interval.Floor.{IsChrono}

abbrev calendar_fields : ℕ → Fields
calendar_fields t = record {
  year = t / 31_104_000_000_000_000;
  month0 = t / 2_592_000_000_000_000 % 12;
  day0 = t / 86_400_000_000_000 % 30;
  hour = t / 3_600_000_000_000 % 24;
  minute = t / 60_000_000_000 % 60;
  second = t / 1_000_000_000 % 60;
}

abbrev set_year : ℕ → ℕ → ℕ
set_year t n = t - t / 31_104_000_000_000_000 * 31_104_000_000_000_000 + n * 31_104_000_000_000_000

abbrev set_month0 : ℕ → ℕ → ℕ
set_month0 t n =
    t - t / 2_592_000_000_000_000 % 12 * 2_592_000_000_000_000 + n * 2_592_000_000_000_000

abbrev set_day0 : ℕ → ℕ → ℕ
set_day0 t n = t - t / 86_400_000_000_000 % 30 * 86_400_000_000_000 + n * 86_400_000_000_000

abbrev set_hour : ℕ → ℕ → ℕ
set_hour t n = t - t / 3_600_000_000_000 % 24 * 3_600_000_000_000 + n * 3_600_000_000_000

abbrev set_minute : ℕ → ℕ → ℕ
set_minute t n = t - t / 60_000_000_000 % 60 * 60_000_000_000 + n * 60_000_000_000

abbrev set_second : ℕ → ℕ → ℕ
set_second t n = t - t / 1_000_000_000 % 60 * 1_000_000_000 + n * 1_000_000_000

abbrev below : ℕ → ℕ → ℕ → Option ℕ
below bound n t = if ltb n bound then some t else none

abbrev pub calendar : Chrono ℕ
calendar = record {
  fields = calendar_fields;
  timestamp = λ t. t;
  from_timestamp = λ n. n;
  num_days_from_monday = λ t. (t / 86_400_000_000_000 + 3) % 7;
  with_second = λ t n. below 60 n (set_second t n);
  with_minute = λ t n. below 60 n (set_minute t n);
  with_hour = λ t n. below 24 n (set_hour t n);
  with_day0 = λ t n. below 30 n (set_day0 t n);
  with_month0 = λ t n. below 12 n (set_month0 t n);
  with_year = λ t n. some (set_year t n);
  add = ◌+◌;
  sub = ◌-◌;
}

fields_path :
    (f g : Fields)
    → f.year ≡ g.year
    → f.month0 ≡ g.month0
    → f.day0 ≡ g.day0
    → f.hour ≡ g.hour
    → f.minute ≡ g.minute
    → f.second ≡ g.second
    → f ≡ g
fields_path f g y mo d h mi s =
    λ i. record { year = y i; month0 = mo i; day0 = d i; hour = h i; minute = mi i; second = s i }

month0_fields :
    (t n : ℕ)
    → n < 12
    → calendar_fields (set_month0 t n) ≡ record (calendar_fields t) { month0 = n }
month0_fields t n h =
    fields_path _ _ (omega (arith, h)) (omega (arith, h)) (omega (arith, h)) (omega (arith, h))
      (omega (arith, h)) (omega (arith, h))

day0_fields :
    (t n : ℕ) → n < 30 → calendar_fields (set_day0 t n) ≡ record (calendar_fields t) { day0 = n }
day0_fields t n h =
    fields_path _ _ (omega (arith, h)) (omega (arith, h)) (omega (arith, h)) (omega (arith, h))
      (omega (arith, h)) (omega (arith, h))

hour_fields :
    (t n : ℕ) → n < 24 → calendar_fields (set_hour t n) ≡ record (calendar_fields t) { hour = n }
hour_fields t n h =
    fields_path _ _ (omega (arith, h)) (omega (arith, h)) (omega (arith, h)) (omega (arith, h))
      (omega (arith, h)) (omega (arith, h))

minute_fields :
    (t n : ℕ)
    → n < 60
    → calendar_fields (set_minute t n) ≡ record (calendar_fields t) { minute = n }
minute_fields t n h =
    fields_path _ _ (omega (arith, h)) (omega (arith, h)) (omega (arith, h)) (omega (arith, h))
      (omega (arith, h)) (omega (arith, h))

second_fields :
    (t n : ℕ)
    → n < 60
    → calendar_fields (set_second t n) ≡ record (calendar_fields t) { second = n }
second_fields t n h =
    fields_path _ _ (omega (arith, h)) (omega (arith, h)) (omega (arith, h)) (omega (arith, h))
      (omega (arith, h)) (omega (arith, h))

year_fields : (t n : ℕ) → calendar_fields (set_year t n) ≡ record (calendar_fields t) { year = n }
year_fields t n =
    fields_path _ _ (omega arith) (omega arith) (omega arith) (omega arith) (omega arith)
      (omega arith)

below-some : (bound n t : ℕ) → n < bound → below bound n t ≡ some t
below-some bound n t h = ground (arith, h)

pub calendar-IsChrono : (last_time : ℕ) → IsChrono calendar last_time
calendar-IsChrono last_time = record {
  second_lt = λ t. omega arith;
  minute_lt = λ t. omega arith;
  hour_lt = λ t. omega arith;
  second_zero = λ t. (set_second t 0, refl, second_fields t 0 (omega arith), omega arith);
  minute_set = λ t n h. (set_minute t n, below-some 60 n _ h, minute_fields t n h, omega arith);
  hour_set = λ t n h. (set_hour t n, below-some 24 n _ h, hour_fields t n h, omega arith);
  first_day = λ t. (set_day0 t 0, refl, day0_fields t 0 (omega arith), omega arith);
  first_month =
      λ t k. (set_month0 t 0, refl, month0_fields t 0 (omega arith), omega arith, omega (arith, k));
  month_set = λ t n k h. (set_month0 t n, below-some 12 n _ h, month0_fields t n h);
  year_next = λ t k l. (
    set_year t (t / 31_104_000_000_000_000 + 1),
    refl,
    year_fields t (t / 31_104_000_000_000_000 + 1),
  );
  month_order = λ t u k l h. omega arith;
  month_lt = λ t. omega arith;
  add_time = λ t n l h. refl;
  of_timestamp = λ n l. refl;
  sub_le = λ t n. omega arith;
  day0_lt = λ t. omega arith;
  weekday_lt = λ t. omega arith;
  sub_days = λ t n h k. (
    omega (arith, k),
    omega (arith, h, k),
    omega (arith, h, k),
    omega (arith, h, k),
    omega (arith, h, k),
  );
}

-- ===== src/Api/Scalars.antt =====
-- The conversions of src/api/graphql.rs between the domain and the types of the schema. A time is a
-- number of nanoseconds since UNIX_EPOCH.
use risq.Base.{ℕ, ◌-◌, ◌/◌, ◌^◌, String, Option, none, some, ltb, if◌then◌else◌}
use risq.Base.Text.{from_str, to_string}
use risq.Offer.{OfferDirection, from_secs}
use risq.Offer
use risq.Statistics.Interval

-- The types of the schema.
pub data Direction : Type 0 where
  buy sell : Direction

pub data Sort : Type 0 where
  asc desc : Sort

pub data ApiInterval : Type 0 where
  minute halfhour hour halfday day week month year : ApiInterval

-- `From<OfferDirection> for Direction`
abbrev pub direction_from : OfferDirection → Direction
direction_from Offer.buy = buy
direction_from Offer.sell = sell

-- `From<Direction> for OfferDirection`
abbrev pub offer_direction : Direction → OfferDirection
offer_direction buy = Offer.buy
offer_direction sell = Offer.sell

-- `From<Interval> for interval::Interval`
abbrev pub interval_from : ApiInterval → Interval.Interval
interval_from minute = Interval.minute
interval_from halfhour = Interval.half_hour
interval_from hour = Interval.hour
interval_from halfday = Interval.half_day
interval_from day = Interval.day
interval_from week = Interval.week
interval_from month = Interval.month
interval_from year = Interval.year

-- `From<SystemTime> for UnixMillis`
unfoldable pub unix_millis : ℕ → String
unix_millis time = to_string (time / 1_000_000)

-- `From<SystemTime> for UnixSecs`
unfoldable pub unix_secs : ℕ → String
unix_secs time = to_string (time / 1_000_000_000)

-- The last second that a `SystemTime` can hold.
abbrev pub last_second : ℕ
last_second = 2 ^ 63 - 1

-- `UNIX_EPOCH + Duration::from_secs` of a number that has been read, or the error. The outer `none`
-- is the panic of `+` at a time that a `SystemTime` cannot hold.
abbrev pub time_of : Option ℕ → Option (Option ℕ)
time_of none = some none
time_of (some n) = if ltb last_second n then none else some (some (from_secs n))

-- `TryFrom<UnixSecs> for SystemTime`, and `ok`.
unfoldable pub system_time : String → Option (Option ℕ)
system_time secs = time_of (from_str (2 ^ 64 - 1) secs)

-- `and_then` of it on an argument that may be missing.
abbrev pub read_time : Option String → Option (Option ℕ)
read_time none = some none
read_time (some secs) = system_time secs

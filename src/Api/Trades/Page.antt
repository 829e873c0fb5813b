-- ===== src/Api/Trades/Page.antt =====
-- What the query `trades` of src/api/graphql.rs answers.
use risq.Base.{
  ◌^◌, ◌-◌, false, lt→ltb, ℕ, ◌≤◌, ◌<◌, min, String, string_eq, Bool, ◌&&◌, ◌≡◌, refl, ap, ◌∙◌,
  Option, none, some, List, ◌++◌, filter, take, length, arith, ltb,
}
use risq.Base.Sorted.{
  Ascending, Descending, filter-Ascending, filter-filter, reverse-Descending, take-Ascending,
  take-Descending, length-take, drop, take-drop,
}
use risq.Base.Int.{ℤ, as_usize}
use risq.Statistics.Trade.{Trade, TradeHistory}
use risq.Statistics.History.{IsOrdered}
use risq.Statistics.Hloc.{unwrap_or}
use risq.Api.Scalars.{Direction, Sort, asc, desc, read_time, system_time, time_of, last_second}
use risq.Base.Text.{from_str}
use risq.Offer.{from_secs}
use risq.Api.Offers.{in_pair, in_direction}
use risq.Api.Trades.{between, wanted_trades, in_order, page_size, field_trades}

abbrev is_wanted : ℕ → ℕ → Option String → Option Direction → Trade → Bool
is_wanted first last market direction t =
    (between first last t && in_pair market t.market.pair) && in_direction direction t.direction

wanted_trades-filter :
    (first last : ℕ) (market : Option String) (direction : Option Direction) (ts : TradeHistory)
    → wanted_trades first last market direction ts
      ≡ filter (is_wanted first last market direction) ts
wanted_trades-filter first last market direction ts =
    ap (filter (λ t. in_direction direction t.direction))
      (filter-filter (λ t. in_pair market t.market.pair) (between first last) ts)
    ∙ filter-filter (λ t. in_direction direction t.direction)
        (λ t. between first last t && in_pair market t.market.pair) ts

-- Which way the time goes in an answer.
abbrev pub Goes : Sort → List Trade → Type 0
Goes asc = Ascending (λ t. t.timestamp)
Goes desc = Descending (λ t. t.timestamp)

in_order-Goes : (sort : Sort) (ts : List Trade) → IsOrdered ts → Goes sort (in_order sort ts)
in_order-Goes asc ts h = h
in_order-Goes desc ts h = reverse-Descending (λ t. t.timestamp) ts h

take-Goes : (sort : Sort) (n : ℕ) (ts : List Trade) → Goes sort ts → Goes sort (take n ts)
take-Goes asc n ts h = take-Ascending (λ t. t.timestamp) n ts h
take-Goes desc n ts h = take-Descending (λ t. t.timestamp) n ts h

-- A page of the trades that are wanted, in the order of time, and what it leaves out.
pub record IsPage (wanted : List Trade) (limit : ℤ) (sort : Sort) (page : List Trade) : Type 0 where
  pub rest : List Trade
  pub first_ones : page ++ rest ≡ in_order sort wanted
  pub size : length page ≡ min (min (as_usize limit) 2000) (length (in_order sort wanted))
  pub at_most : length page ≤ 2000
  pub goes : Goes sort page

take-IsPage :
    (wanted : List Trade) (limit : ℤ) (sort : Sort)
    → IsOrdered wanted
    → IsPage wanted limit sort (take (page_size limit) (in_order sort wanted))
take-IsPage wanted limit sort h =
    let n = page_size limit in
    let ts = in_order sort wanted in
    record {
      rest = drop n ts;
      first_ones = take-drop n ts;
      size = length-take n ts;
      at_most = omega (arith, length-take n ts);
      goes = take-Goes sort n ts (in_order-Goes sort wanted h);
    }

-- An argument that is missing, is no number, or is a number of seconds that a `SystemTime` can
-- hold.
abbrev pub Fits : Option String → Type 0
Fits none = Unit
Fits (some secs) = (n : ℕ) → from_str (2 ^ 64 - 1) secs ≡ some n → n ≤ last_second

read_time-Fits : (o : Option String) → Fits o → (time : Option ℕ) × (read_time o ≡ some time)
unfolding system_time
read_time-Fits none h = (none, refl)
read_time-Fits (some secs) h = fits (from_str (2 ^ 64 - 1) secs) h
  where
    fits :
        (o : Option ℕ)
        → ((n : ℕ) → o ≡ some n → n ≤ last_second)
        → (time : Option ℕ) × (time_of o ≡ some time)
    fits none k = (none, refl)
    fits (some n) k =
        let small : ltb last_second n ≡ false = ground (arith, k n refl) in
        (some (from_secs n), rw small refl)

-- The answer is a page of the trades between the times of the arguments.
pub record Answers (now : ℕ) (history : TradeHistory) (market : Option String)
    (direction : Option Direction) (from to : Option String) (limit : ℤ) (sort : Sort)
    : Type 0 where
  pub from_time : Option ℕ
  pub to_time : Option ℕ
  pub reads_from : read_time from ≡ some from_time
  pub reads_to : read_time to ≡ some to_time
  pub page : List Trade
  pub answers : field_trades now history market direction from to limit sort ≡ some page
  pub is_page :
      IsPage
        (filter
          (is_wanted (unwrap_or from_time 0) (unwrap_or to_time now) market direction)
          history)
        limit
        sort
        page

-- Where the times in the arguments fit a `SystemTime`, the query does not panic. Of the trades of
-- the history that are of the market and the direction and between the times, it answers the first
-- ones, from the earliest or from the latest on as it is asked, in that order: as many as there
-- are, up to the limit and to 2000. A limit below zero limits nothing.
pub field_trades-Answers :
    (now : ℕ) (history : TradeHistory) (market : Option String) (direction : Option Direction)
    (from to : Option String) (limit : ℤ) (sort : Sort)
    → IsOrdered history
    → Fits from
    → Fits to
    → Answers now history market direction from to limit sort
unfolding field_trades
field_trades-Answers now history market direction from to limit sort h f g =
    let (from_time, reads_from) = read_time-Fits from f in
    let (to_time, reads_to) = read_time-Fits to g in
    let first = unwrap_or from_time 0 in
    let last = unwrap_or to_time now in
    let is_wanted_here = is_wanted first last market direction in
    let same = wanted_trades-filter first last market direction history in
    record {
      from_time = from_time;
      to_time = to_time;
      reads_from = reads_from;
      reads_to = reads_to;
      page = take (page_size limit) (in_order sort (filter is_wanted_here history));
      answers =
          rw reads_from
            (rw reads_to (ap (λ ts. some (take (page_size limit) (in_order sort ts))) same));
      is_page =
          take-IsPage (filter is_wanted_here history) limit sort
            (filter-Ascending (λ t. t.timestamp) is_wanted_here history h);
    }

-- A time that does not fit a `SystemTime` ends the query in a panic.
pub field_trades_overflow :
    (now : ℕ) (history : TradeHistory) (market : Option String) (direction : Option Direction)
    (secs : String) (to : Option String) (limit : ℤ) (sort : Sort) (n : ℕ)
    → from_str (2 ^ 64 - 1) secs ≡ some n
    → last_second < n
    → field_trades now history market direction (some secs) to limit sort ≡ none
unfolding field_trades system_time
field_trades_overflow now history market direction secs to limit sort n reads big =
    let panics : read_time (some secs) ≡ none =
      ap time_of reads ∙ rw (lt→ltb last_second n big) refl in
    rw panics refl

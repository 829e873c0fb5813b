-- ===== src/Statistics/Ticker/Day.antt =====
-- What the loops over trades of src/domain/statistics/ticker.rs make of the ticker of one market.
use mathlib.Core.List.{foldl}
use risq.Base.{
  ℕ, ◌≤◌, String, string_eq, ◌≡◌, refl, sym, ap, ◌∙◌, Option, none, some, is_some, false, List, [],
  ◌∷◌, map, filter, find, leb, arith, All, Bool-cases, inl, inr, if◌then◌else◌, subst,
}
use risq.Base.Sorted.{Descending}
use risq.Amount.{NumberWithPrecision, zero_amount, add_assign}
use risq.Market.{Market}
use risq.Statistics.Trade.{Trade}
use risq.Statistics.Hloc.{max_price, min_price, unwrap_or}
use risq.Statistics.Ticker.{Ticker, extend, add_recent, empty_ticker}
use risq.Statistics.Ticker.Loops.{of_pair, span, set_latest}

-- The best of some prices by a rule for two.
abbrev pub best :
    (NumberWithPrecision → NumberWithPrecision → NumberWithPrecision)
    → List NumberWithPrecision
    → Option NumberWithPrecision
best rule [] = none
best rule (p ∷ ps) = some (foldl rule p ps)

abbrev pub latest_price : Option Trade → Option NumberWithPrecision
latest_price none = none
latest_price (some t) = some t.price

-- The first of two that is there.
abbrev pub or_latest :
    Option NumberWithPrecision → Option NumberWithPrecision → Option NumberWithPrecision
or_latest none latest = latest
or_latest (some p) latest = some p

extend-best :
    (rule : NumberWithPrecision → NumberWithPrecision → NumberWithPrecision)
    (p : NumberWithPrecision) (ps : List NumberWithPrecision)
    → foldl (extend rule) (some p) ps ≡ some (foldl rule p ps)
extend-best rule p [] = refl
extend-best rule p (q ∷ ps) = extend-best rule (rule p q) ps

pub extend_all :
    (rule : NumberWithPrecision → NumberWithPrecision → NumberWithPrecision)
    (ps : List NumberWithPrecision)
    → foldl (extend rule) none ps ≡ best rule ps
extend_all rule [] = refl
extend_all rule (p ∷ ps) = extend-best rule p ps

abbrev pub sum_up : List Trade → Ticker → Ticker
sum_up ts k = foldl (λ j t. add_recent t j) k ts

-- What the first loop makes of a ticker, by its fields.
pub record IsSum (k : Ticker) (ts : List Trade) (r : Ticker) : Type 0 where
  pub market : r.market ≡ k.market
  pub high : r.high ≡ foldl (extend max_price) k.high (map (λ t. t.price) ts)
  pub low : r.low ≡ foldl (extend min_price) k.low (map (λ t. t.price) ts)
  pub volume_left : r.volume_left ≡ foldl add_assign k.volume_left (map (λ t. t.amount) ts)
  pub volume_right : r.volume_right ≡ foldl add_assign k.volume_right (map (λ t. t.volume) ts)
  pub buy : r.buy ≡ k.buy
  pub sell : r.sell ≡ k.sell

sum_up-IsSum : (k : Ticker) (ts : List Trade) → IsSum k ts (sum_up ts k)
sum_up-IsSum k [] = record {
  market = refl;
  high = refl;
  low = refl;
  volume_left = refl;
  volume_right = refl;
  buy = refl;
  sell = refl;
}
sum_up-IsSum k (t ∷ ts) =
    let ih = sum_up-IsSum (add_recent t k) ts in
    record {
      market = ih.market;
      high = ih.high;
      low = ih.low;
      volume_left = ih.volume_left;
      volume_right = ih.volume_right;
      buy = ih.buy;
      sell = ih.sell;
    }

last_kept :
    (p : NumberWithPrecision) (k : Ticker) (ts : List Trade)
    → k.last ≡ some p
    → (sum_up ts k).last ≡ some p
last_kept p k [] h = h
last_kept p k (t ∷ ts) h = last_kept p (add_recent t k) ts (ap (λ o. some (unwrap_or o t.price)) h)

-- The first loop stops at the first trade before the last day, which in order are all of them.
pub span-filter :
    (earliest : ℕ) (ts : List Trade)
    → Descending (λ t. t.timestamp) ts
    → (span earliest ts).0 ≡ filter (λ t. leb earliest t.timestamp) ts
span-filter earliest [] d = refl
span-filter earliest (t ∷ ts) d = elim (Bool-cases (leb earliest t.timestamp)) [
  | inl now ↦ rw now (ap (◌∷◌ t) (span-filter earliest ts d.1))
  | inr before ↦ rw before (sym (none_later t ts before d.0))
]
  where
    none_later :
        (t : Trade) (us : List Trade)
        → leb earliest t.timestamp ≡ false
        → All (λ u. u.timestamp ≤ t.timestamp) us
        → filter (λ u. leb earliest u.timestamp) us ≡ []
    none_later t [] h a = refl
    none_later t (u ∷ us) h a = ground (arith, h, a.0, none_later t us h a.1)

pub head : List Trade → Option Trade → Option Trade
head [] other = other
head (t ∷ ts) other = some t

-- The latest trade of a market is in the last day or before it.
pub find-span :
    (pair : String) (earliest : ℕ) (ts : List Trade)
    → find (of_pair pair) ts
      ≡ head (filter (of_pair pair) (span earliest ts).0) (find (of_pair pair) (span earliest ts).1)
unfolding head
find-span pair earliest [] = refl
find-span pair earliest (t ∷ ts) = elim (Bool-cases (leb earliest t.timestamp)) [
  | inl now ↦ rw now (elim (Bool-cases (of_pair pair t)) [
    | inl same ↦ rw same refl
    | inr other ↦ rw other (find-span pair earliest ts)
  ])
  | inr before ↦ rw before refl
]

-- The prices and volumes that the trades of a market give, with no offers yet.
pub record IsPriced (m : Market) (day : List Trade) (latest : Option Trade) (k : Ticker)
    : Type 0 where
  pub of_market : k.market ≡ m
  pub last : k.last ≡ latest_price latest
  pub high : k.high ≡ or_latest (best max_price (map (λ t. t.price) day)) (latest_price latest)
  pub low : k.low ≡ or_latest (best min_price (map (λ t. t.price) day)) (latest_price latest)
  pub volume_left : k.volume_left ≡ foldl add_assign zero_amount (map (λ t. t.amount) day)
  pub volume_right : k.volume_right ≡ foldl add_assign zero_amount (map (λ t. t.volume) day)

-- The end of both loops, from the trades of the last day and the latest before.
abbrev pub both : Option Trade → Ticker → Ticker
both older k = if is_some k.last then k else set_latest older k

pub both-IsPriced :
    (m : Market) (day : List Trade) (older : Option Trade)
    → IsPriced m day (head day older) (both older (sum_up day (empty_ticker m)))
      × ((both older (sum_up day (empty_ticker m))).buy ≡ none)
      × ((both older (sum_up day (empty_ticker m))).sell ≡ none)
unfolding head
both-IsPriced m [] none = (
  record {
    of_market = refl;
    last = refl;
    high = refl;
    low = refl;
    volume_left = refl;
    volume_right = refl;
  },
  refl,
  refl,
)
both-IsPriced m [] (some t) = (
  record {
    of_market = refl;
    last = refl;
    high = refl;
    low = refl;
    volume_left = refl;
    volume_right = refl;
  },
  refl,
  refl,
)
both-IsPriced m (t ∷ ts) older =
    let k = sum_up (t ∷ ts) (empty_ticker m) in
    let sum = sum_up-IsSum (empty_ticker m) (t ∷ ts) in
    let last = last_kept t.price (add_recent t (empty_ticker m)) ts refl in
    let kept : both older k ≡ k = rw last refl in
    subst (λ j. IsPriced m (t ∷ ts) (some t) j × (j.buy ≡ none) × (j.sell ≡ none)) (sym kept)
      (
        record {
          of_market = sum.market;
          last = last;
          high = sum.high ∙ extend_all max_price (map (λ u. u.price) (t ∷ ts));
          low = sum.low ∙ extend_all min_price (map (λ u. u.price) (t ∷ ts));
          volume_left = sum.volume_left;
          volume_right = sum.volume_right;
        },
        sum.buy,
        sum.sell,
      )

-- ===== src/Statistics/Ticker/Loops.antt =====
-- The two loops over the trades in src/domain/statistics/ticker.rs, for one market.
use mathlib.Core.List.{foldl}
use risq.Base.{
  ℕ, ◌-◌, ◌*◌, String, string_eq, ◌≡◌, refl, sym, ap, ◌∙◌, Option, none, some, is_some, not, Bool,
  true, false, ◌&&◌, List, [], ◌∷◌, reverse, filter, find, leb, if◌then◌else◌, ◌==◌, arith, beq→eq,
  Bool-cases, inl, inr,
}
use risq.Base.HashMap.{get, insert, get-insert, Distinct, insert-Distinct}
use risq.Base.HashSet.{contains}
use risq.Offer.{from_secs}
use risq.Statistics.Trade.{Trade, TradeHistory}
use risq.Statistics.Ticker.{
  Ticker, Tickers, update, add_recent, recent, set_price, missing_markets, older, priced,
}

abbrev pub map_some : (Ticker → Ticker) → Option Ticker → Option Ticker
map_some f none = none
map_some f (some k) = some (f k)

abbrev pub of_pair : String → Trade → Bool
of_pair pair t = t.market.pair == pair

pub map_some_twice :
    (g h : Ticker → Ticker) (o : Option Ticker)
    → map_some h (map_some g o) ≡ map_some (λ k. h (g k)) o
map_some_twice g h none = refl
map_some_twice g h (some k) = refl

pub get-update :
    (k j : String) (f : Ticker → Ticker) (m : Tickers)
    → get j (update k f m) ≡ (if k == j then map_some f (get j m) else get j m)
get-update k j f m = stored (get k m) refl
  where
    stored :
        (o : Option Ticker)
        → get k m ≡ o
        → get j (elim o [ none ↦ m | some ticker ↦ insert k (f ticker) m ])
          ≡ (if k == j then map_some f (get j m) else get j m)
    stored none e = elim (Bool-cases (k == j)) [
      | inl same ↦ rw same (
          let gone : get j m ≡ none = ap (λ i. get i m) (sym (beq→eq k j same)) ∙ e in rw gone refl)
      | inr other ↦ rw other refl
    ]
    stored (some ticker) e = get-insert k j (f ticker) m ∙ elim (Bool-cases (k == j)) [
      | inl same ↦
          (let there : get j m ≡ some ticker = ap (λ i. get i m) (sym (beq→eq k j same)) ∙ e in
            rw same (rw there refl))
      | inr other ↦ rw other refl
    ]

-- The trades from the first on that are not before a time, and those that follow.
abbrev pub span : ℕ → List Trade → List Trade × List Trade
span earliest [] = ([], [])
span earliest (t ∷ ts) =
    let (day, rest) = span earliest ts in
    if leb earliest t.timestamp then (t ∷ day, rest) else ([], t ∷ ts)

abbrev pub summary : String → List Trade → Ticker → Ticker
summary pair ts ticker = foldl (λ k t. add_recent t k) ticker (filter (of_pair pair) ts)

recent-rest :
    (earliest : ℕ) (ts : List Trade) (m : Tickers) → (recent earliest ts m).1 ≡ (span earliest ts).1
unfolding recent
recent-rest earliest [] m = refl
recent-rest earliest (t ∷ ts) m =
    let ih = recent-rest earliest ts (update t.market.pair (add_recent t) m) in
    elim (Bool-cases (leb earliest t.timestamp)) [
      | inl now ↦ rw now ih
      | inr before ↦ rw before refl
    ]

get-recent :
    (pair : String) (earliest : ℕ) (ts : List Trade) (m : Tickers)
    → get pair (recent earliest ts m).0 ≡ map_some (summary pair (span earliest ts).0) (get pair m)
unfolding recent
get-recent pair earliest [] m = ground arith
get-recent pair earliest (t ∷ ts) m = ground (
  arith,
  get-recent pair earliest ts (update t.market.pair (add_recent t) m),
  get-update t.market.pair pair (add_recent t) m,
)

update-Distinct :
    (k : String) (f : Ticker → Ticker) (m : Tickers) → Distinct m → Distinct (update k f m)
update-Distinct k f m d = stored (get k m)
  where
    stored :
        (o : Option Ticker) → Distinct (elim o [ none ↦ m | some ticker ↦ insert k (f ticker) m ])
    stored none = d
    stored (some ticker) = insert-Distinct k (f ticker) m d

recent-Distinct :
    (earliest : ℕ) (ts : List Trade) (m : Tickers) → Distinct m → Distinct (recent earliest ts m).0
unfolding recent
recent-Distinct earliest [] m d = d
recent-Distinct earliest (t ∷ ts) m d =
    let ih =
      recent-Distinct earliest ts (update t.market.pair (add_recent t) m)
        (update-Distinct t.market.pair (add_recent t) m d) in
    elim (Bool-cases (leb earliest t.timestamp)) [ inl now ↦ rw now ih | inr before ↦ rw before d ]

contains-others :
    (k j : String) (s : List String)
    → contains j (filter (λ i. not (i == k)) s) ≡ (contains j s && not (k == j))
unfolding contains
contains-others k j [] = refl
contains-others k j (i ∷ s) = ground (
  arith,
  contains-others k j s,
  string_eq.beq_iff i k,
  string_eq.beq_iff i j,
  string_eq.beq_iff k j,
)

abbrev pub set_latest : Option Trade → Ticker → Ticker
set_latest none ticker = ticker
set_latest (some t) ticker = set_price t ticker

contains_nil : (k : String) → contains k [] ≡ false
unfolding contains
contains_nil k = refl

older_found :
    (pair : String) (t : Trade) (ts : List Trade) (s : List String) (m : Tickers)
    → contains t.market.pair s ≡ true
    → (if contains pair (filter (λ j. not (j == t.market.pair)) s)
        then map_some
            (set_latest (find (of_pair pair) ts))
            (get pair (update t.market.pair (set_price t) m))
        else get pair (update t.market.pair (set_price t) m))
      ≡ (if contains pair s
          then map_some (set_latest (find (of_pair pair) (t ∷ ts))) (get pair m)
          else get pair m)
older_found pair t ts s m found = rw (contains-others t.market.pair pair s) (
    rw (get-update t.market.pair pair (set_price t) m) (elim (Bool-cases (t.market.pair == pair)) [
      | inl same ↦
          rw same (rw (ap (λ p. contains p s) (sym (beq→eq t.market.pair pair same)) ∙ found) refl)
      | inr other ↦ rw other ground arith
    ]))

older_other :
    (pair : String) (t : Trade) (ts : List Trade) (s : List String) (m : Tickers)
    → contains t.market.pair s ≡ false
    → (if contains pair s
        then map_some (set_latest (find (of_pair pair) ts)) (get pair m)
        else get pair m)
      ≡ (if contains pair s
          then map_some (set_latest (find (of_pair pair) (t ∷ ts))) (get pair m)
          else get pair m)
older_other pair t ts s m absent = elim (Bool-cases (t.market.pair == pair)) [
  | inl same ↦ rw (ap (λ p. contains p s) (sym (beq→eq t.market.pair pair same)) ∙ absent) refl
  | inr other ↦ rw other refl
]

get-older :
    (pair : String) (missing : List String) (ts : List Trade) (m : Tickers)
    → get pair (older missing ts m) ≡ (
        if contains pair missing
        then map_some (set_latest (find (of_pair pair) ts)) (get pair m)
        else get pair m)
unfolding older
get-older pair missing [] m = ground arith
get-older pair [] (t ∷ ts) m = rw (contains_nil pair) refl
get-older pair (k ∷ ks) (t ∷ ts) m =
    let others = filter (λ j. not (j == t.market.pair)) (k ∷ ks) in
    elim (Bool-cases (contains t.market.pair (k ∷ ks))) [
      | inl found ↦ rw found (
          get-older pair others ts (update t.market.pair (set_price t) m)
          ∙ older_found pair t ts (k ∷ ks) m found)
      | inr other ↦ rw other (get-older pair (k ∷ ks) ts m ∙ older_other pair t ts (k ∷ ks) m other)
    ]

abbrev pub is_missing : Option Ticker → Bool
is_missing none = false
is_missing (some ticker) = not (is_some ticker.last)

contains-missing :
    (pair : String) (m : Tickers)
    → Distinct m
    → contains pair (missing_markets m) ≡ is_missing (get pair m)
unfolding contains get
contains-missing pair [] d = refl
contains-missing pair ((k, v) ∷ m) d = elim (Bool-cases (is_some v.last)) [
  | inl known ↦ rw known (
      contains-missing pair m d.1 ∙ (elim (Bool-cases (k == pair)) [
        | inl same ↦ rw same (
            ap (λ i. is_missing (get i m)) (sym (beq→eq k pair same))
            ∙ ap is_missing d.0
            ∙ ap not (sym known))
        | inr other ↦ rw other refl
      ]))
  | inr unknown ↦ rw unknown (elim (Bool-cases (k == pair)) [
    | inl same ↦ rw same (ap not (sym unknown))
    | inr other ↦ rw other (contains-missing pair m d.1)
  ])
]

-- What is known of a market from its trades, the latest first.
abbrev pub from_market : String → ℕ → List Trade → Ticker → Ticker
from_market pair earliest ts ticker =
    let day = summary pair (span earliest ts).0 ticker in
    if is_some day.last then day else set_latest (find (of_pair pair) (span earliest ts).1) day

both_loops :
    (pair : String) (day : Ticker → Ticker) (latest : Option Trade) (o : Option Ticker)
    → (if is_missing (map_some day o)
        then map_some (set_latest latest) (map_some day o)
        else map_some day o)
      ≡ map_some (λ k. if is_some (day k).last then day k else set_latest latest (day k)) o
both_loops pair day latest none = refl
both_loops pair day latest (some k) = elim (Bool-cases (is_some (day k).last)) [
  | inl known ↦ rw known refl
  | inr unknown ↦ rw unknown refl
]

pub get-priced :
    (pair : String) (now : ℕ) (history : TradeHistory) (m : Tickers)
    → Distinct m
    → get pair (priced now history m)
      ≡ map_some (from_market pair (now - from_secs (24 * 60 * 60)) (reverse history)) (get pair m)
unfolding priced
get-priced pair now history m d =
    let earliest = now - from_secs (24 * 60 * 60) in
    let ts = reverse history in
    let after = recent earliest ts m in
    get-older pair (missing_markets after.0) after.1 after.0
    ∙ rw (contains-missing pair after.0 (recent-Distinct earliest ts m d)) (
        rw (get-recent pair earliest ts m) (
          rw (recent-rest earliest ts m) (
            both_loops pair (summary pair (span earliest ts).0)
              (find (of_pair pair) (span earliest ts).1) (get pair m))))

-- ===== src/Market/Facts.antt =====
-- What holds of the tables of src/domain/market.rs and src/domain/currency.rs. The tables are
-- walked once, by evaluation; the laws are about whatever the look-ups find.
use risq.Base.{
  is_some, length, String, ◌≡◌, refl, ap, Bool, true, false, not, ◌&&◌, Option, none, some,
  find-holds, find-all, ◌==◌, string_eq, all, if◌then◌else◌, arith, beq→eq, and_parts, ◌⊎◌, ◌≢◌,
}
use risq.Currency.{Currency, CurrencyType, fiat, crypto, from_code, all_currencies, is_crypto}
use risq.Market.{
  Market, all_markets, init_markets, non_btc_side, from_pair, from_currency, from_currency_pair,
}

get_some {ℓ} : {A : Type ℓ} (o : Option A) → is_some o ≡ true → (a : A) × (o ≡ some a)
get_some none h = cc
get_some (some a) h = (a, refl)

-- The initialisation of the table of markets does not panic: each of its codes is in the table of
-- currencies. It gives 278 markets.
pub init_markets_total : (init_markets ≡ some all_markets) × (length all_markets ≡ 278)
unfolding all_markets
init_markets_total = (refl, refl)

abbrev type_eq : CurrencyType → CurrencyType → Bool
type_eq fiat fiat = true
type_eq crypto crypto = true
type_eq _ _ = false

abbrev currency_eq : Currency → Currency → Bool
currency_eq a b = a.code == b.code && (a.name == b.name && type_eq a.currency_type b.currency_type)

abbrev market_eq : Market → Market → Bool
market_eq a b =
    a.pair == b.pair
    && (a.name == b.name && (currency_eq a.left b.left && currency_eq a.right b.right))

currency_eq-eq : (a b : Currency) → currency_eq a b ≡ true → a ≡ b
currency_eq-eq a b h =
    ground (arith, string_eq.beq_iff a.code b.code, string_eq.beq_iff a.name b.name)

market_eq-eq : (a b : Market) → market_eq a b ≡ true → a ≡ b
market_eq-eq a b h = ground (
  arith,
  string_eq.beq_iff a.pair b.pair,
  string_eq.beq_iff a.name b.name,
  currency_eq-eq a.left b.left,
  currency_eq-eq a.right b.right,
)

abbrev has_one_btc : Market → Bool
has_one_btc m =
    if m.left.code == "BTC"
    then not (m.right.code == "BTC") && not (is_crypto m.right)
    else m.right.code == "BTC" && is_crypto m.left

abbrev found_is : Market → Option Market → Bool
found_is m none = false
found_is m (some n) = market_eq n m

abbrev reads_back : Market → Bool
reads_back m = found_is m (from_pair m.pair)

one_btc : all has_one_btc all_markets ≡ true
unfolding all_markets
one_btc = refl

all_read_back : all reads_back all_markets ≡ true
unfolding all_markets from_pair
all_read_back = refl

no_orphan : all (λ c. is_some (from_currency c)) all_currencies ≡ true
unfolding all_currencies from_currency
no_orphan = refl

-- The test of `from_currency_pair`.
abbrev has_codes : Currency → Currency → Market → Bool
has_codes left right m = m.left.code == left.code && m.right.code == right.code

found_is-eq : (m : Market) (o : Option Market) → found_is m o ≡ true → o ≡ some m
found_is-eq m none h = cc
found_is-eq m (some n) h = ap some (market_eq-eq n m h)

-- A market that is found for two currencies has their codes, and is found under its own pair.
pub from_currency_pair_sound :
    (left right : Currency) {m : Market}
    → from_currency_pair left right ≡ some m
    → (m.left.code ≡ left.code) × (m.right.code ≡ right.code) × (from_pair m.pair ≡ some m)
unfolding from_currency_pair
from_currency_pair_sound left right {m} found =
    let (same_left, same_right) =
      and_parts _ _ (find-holds (has_codes left right) all_markets found) in
    (
      beq→eq m.left.code left.code same_left,
      beq→eq m.right.code right.code same_right,
      found_is-eq m (from_pair m.pair)
          (find-all (has_codes left right) reads_back all_markets all_read_back found),
    )

abbrev pub BtcLeft : Market → Type 0
BtcLeft m =
    (m.left.code ≡ "BTC")
    × (m.right.code ≢ "BTC")
    × (non_btc_side m ≡ m.right)
    × (is_crypto m.right ≡ false)

abbrev pub BtcRight : Market → Type 0
BtcRight m =
    (m.right.code ≡ "BTC")
    × (m.left.code ≢ "BTC")
    × (non_btc_side m ≡ m.left)
    × (is_crypto m.left ≡ true)

has_one_btc-sides : (m : Market) → has_one_btc m ≡ true → BtcLeft m ⊎ BtcRight m
unfolding non_btc_side
has_one_btc-sides m h =
    ground (arith, string_eq.beq_iff m.left.code "BTC", string_eq.beq_iff m.right.code "BTC")

-- In each market that is found for two currencies, just one side is Bitcoin, `non_btc_side` is the
-- other one, and that one is a crypto currency exactly if Bitcoin stands on the right.
pub non_btc_side_lem :
    (left right : Currency) {m : Market}
    → from_currency_pair left right ≡ some m
    → BtcLeft m ⊎ BtcRight m
unfolding from_currency_pair
non_btc_side_lem left right {m} found =
    has_one_btc-sides m (find-all (has_codes left right) has_one_btc all_markets one_btc found)

-- Each currency that is found has a market: `From<&Currency>` does not panic.
pub from_currency_total :
    (code : String) {c : Currency}
    → from_code code ≡ some c
    → (m : Market) × (from_currency c ≡ some m)
unfolding from_code
from_currency_total code {c} found =
    get_some (from_currency c) (
      find-all (λ d. d.code == code) (λ d. is_some (from_currency d)) all_currencies no_orphan
        found)

-- ===== src/Statistics/Trade.antt =====
-- src/domain/statistics/trade.rs: a trade, and the history of trades in the order of time.
use risq.Base.{
  ℕ, zero, suc, String, Bool, false, Option, none, some, List, [], ◌∷◌, length, ltb, get_elem?,
  insert_at, if◌then◌else◌,
}
use risq.F64.{F64}
use risq.Hash.{PersistentMessageHash}
use risq.Amount.{NumberWithPrecision, mul, with_precision, div_amount}
use risq.Currency.{is_crypto, bisq_internal_precision}
use risq.Market.{Market, non_btc_side}
use risq.Offer.{OfferDirection, oposite}

pub record Trade : Type 0 where
  pub market : Market
  pub direction : OfferDirection
  pub offer_id : String
  pub price : NumberWithPrecision
  pub amount : NumberWithPrecision
  pub volume : NumberWithPrecision
  pub payment_method_id : String
  pub timestamp : ℕ
  pub hash : PersistentMessageHash

abbrev trade :
    Market
    → OfferDirection
    → String
    → NumberWithPrecision
    → NumberWithPrecision
    → NumberWithPrecision
    → String
    → ℕ
    → PersistentMessageHash
    → Trade
trade market direction offer_id price amount volume payment_method_id timestamp hash = record {
  market = market;
  direction = direction;
  offer_id = offer_id;
  price = price;
  amount = amount;
  volume = volume;
  payment_method_id = payment_method_id;
  timestamp = timestamp;
  hash = hash;
}

-- `Trade::new`; `none` is the panic of the division by a zero price. In a market of a crypto
-- currency the amount is what Bitcoin buys, and the direction is turned round.
unfoldable pub new_trade :
    {F : Type 0} (f : F64 F)
    → Market
    → OfferDirection
    → String
    → NumberWithPrecision
    → NumberWithPrecision
    → String
    → ℕ
    → PersistentMessageHash
    → Option Trade
new_trade f market direction offer_id price amount payment_method_id timestamp hash =
    if is_crypto (non_btc_side market)
    then elim (div_amount f amount price) [
      | none ↦ none
      | some bought ↦ some (
          trade market (oposite direction) offer_id price bought amount payment_method_id timestamp
            hash)
    ]
    else some (
        trade market direction offer_id price amount
          (with_precision (mul price amount) (bisq_internal_precision market.right))
          payment_method_id timestamp hash)

-- `TradeHistory`
abbrev pub TradeHistory : Type 0
TradeHistory = List Trade

abbrev pub is_later : ℕ → Option Trade → Bool
is_later timestamp none = false
is_later timestamp (some t) = ltb t.timestamp timestamp

-- The loop of `insert`, from n down: `n - 1` is below the length in each round.
unfoldable pub insert_position : TradeHistory → ℕ → ℕ → ℕ
insert_position inner timestamp zero = 0
insert_position inner timestamp (suc n) =
    let before = insert_position inner timestamp n in
    if is_later timestamp (get_elem? inner n) then suc n else before

unfoldable pub insert : TradeHistory → Trade → TradeHistory
unfolding insert_position
insert inner t = insert_at (insert_position inner t.timestamp (length inner)) t inner

unfoldable pub first_trade_time : TradeHistory → Option ℕ
first_trade_time [] = none
first_trade_time (t ∷ ts) = some t.timestamp

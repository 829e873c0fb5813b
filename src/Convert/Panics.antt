-- ===== src/Convert/Panics.antt =====
-- The conversion of a trade in src/daemon/convert.rs never panics.
use risq.Base.{
  ℕ, String, ◌>>=◌, ◌≡◌, ◌≤◌, ◌<◌, ◌^◌, refl, true, false, ◌||◌, Option, none, some, is_some, arith,
  Bool-cases, inl, inr,
}
use risq.Base.Int.{ℤ, pos, negsuc, pos_part, neg_part, as_u64, leb_ℤ}
use risq.F64.{F64}
use risq.Hash.{PersistentMessageHash}
use risq.Amount.{NumberWithPrecision, div_amount}
use risq.Currency.{from_code}
use risq.Market.{Market, from_currency_pair}
use risq.Offer.{OfferDirection, from_millis}
use risq.Payload.Types.{
  TradeStatistics2, PersistableMessage, trade_statistics2, account_age_witness, proposal_payload,
  blind_vote_payload, signed_witness, PersistableNetworkPayload,
}
use risq.Statistics.Trade.{new_trade}
use risq.Payload.{Crypto, bisq_hash}
use risq.Convert.{try, made, offer_direction, trade_of_stats, trade_of_message, convert_trade}

-- The range of an `i64`
abbrev pub IsI64 : ℤ → Type 0
IsI64 z = (pos_part z < 2 ^ 63) × (neg_part z ≤ 2 ^ 63)

module _ {F : Type 0} (f : F64 F) where
  div_amount-is_some :
      (a b : NumberWithPrecision) → 1 ≤ b.base_amount → is_some (div_amount f a b) ≡ true
  unfolding div_amount
  div_amount-is_some a b h = ground arith

  new_trade-is_some :
      (market : Market) (direction : OfferDirection) (offer_id : String)
      (price amount : NumberWithPrecision) (payment_method_id : String) (timestamp : ℕ)
      (hash : PersistentMessageHash)
      → 1 ≤ price.base_amount
      → is_some
          (new_trade f market direction offer_id price amount payment_method_id timestamp hash)
        ≡ true
  unfolding new_trade
  new_trade-is_some market direction offer_id price amount payment_method_id timestamp hash h =
      ground (arith, div_amount-is_some amount price h)

positive_u64 : (z : ℤ) → IsI64 z → leb_ℤ z (pos 0) ≡ false → 1 ≤ as_u64 z
positive_u64 (pos n) h k = ground arith
positive_u64 (negsuc n) h k = ground arith

made-is_some : {A : Type 0} (o : Option A) → is_some o ≡ true → is_some (made o) ≡ true
made-is_some none h = h
made-is_some (some a) h = refl

try-is_some :
    {A B : Type 0} (o : Option A) (k : A → Option (Option B))
    → ((a : A) → is_some (k a) ≡ true)
    → is_some (try o k) ≡ true
try-is_some none k h = refl
try-is_some (some a) k h = h a

-- The price of a trade is an `i64`.
abbrev pub HasPrice : Option PersistableMessage → Type 0
HasPrice (some (trade_statistics2 stats)) = IsI64 stats.trade_price
HasPrice _ = Unit

module _ {F K : Type 0} (c : Crypto F K) (f : F64 F) where
  trade_of_stats-is_some :
      (stats : TradeStatistics2) (hash : PersistentMessageHash)
      → IsI64 stats.trade_price
      → is_some (trade_of_stats c f stats hash) ≡ true
  unfolding trade_of_stats
  trade_of_stats-is_some stats hash h =
      let no_price = leb_ℤ stats.trade_price (pos 0) in
      let no_amount = leb_ℤ stats.trade_amount (pos 0) in
      elim (Bool-cases (no_price || no_amount)) [
        | inl empty ↦ rw (empty, trade_of_stats) refl
        | inr full ↦
            rw (full, trade_of_stats)
              (try-is_some (offer_direction stats.direction) _ λ direction.
                try-is_some (from_code stats.base_currency) _ λ base.
                  try-is_some (from_code stats.counter_currency) _ λ counter.
                    try-is_some (from_currency_pair base counter) _ λ market. made-is_some _ (
                      new_trade-is_some f market direction stats.offer_id _ _
                        stats.payment_method_id (from_millis (as_u64 stats.trade_date)) hash
                        (positive_u64 stats.trade_price h (ground (arith, full)))))
      ]

  -- Where the price of the trade is an `i64`, the conversion of a payload panics just where the
  -- payload has no hash: in particular no price is 0.
  pub convert_trade-is_some :
      (payload : PersistableNetworkPayload)
      → HasPrice payload.message
      → is_some (convert_trade c f payload) ≡ is_some (bisq_hash c payload)
  unfolding convert_trade
  convert_trade-is_some payload h = go (bisq_hash c payload) payload.message h
    where
      go :
          (hash : Option PersistentMessageHash) (message : Option PersistableMessage)
          → HasPrice message
          → is_some (hash >>= λ i. try message (trade_of_message c f i)) ≡ is_some hash
      go none message h = refl
      go (some hash) none h = refl
      go (some hash) (some (trade_statistics2 stats)) h = trade_of_stats-is_some stats hash h
      go (some hash) (some (account_age_witness i rest)) h = refl
      go (some hash) (some (proposal_payload i rest)) h = refl
      go (some hash) (some (blind_vote_payload i rest)) h = refl
      go (some hash) (some (signed_witness witness)) h = refl

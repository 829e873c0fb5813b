-- ===== src/Convert.antt =====
-- src/daemon/convert.rs: what the network's messages become in the domain.
pub mod Keeps
pub mod Panics
mod Tests
use risq.Base.{zero, suc, Option, none, some, ◌>>=◌, if◌then◌else◌, ◌||◌}
use risq.Base.Int.{ℤ, pos, as_u64, leb_ℤ}
use risq.F64.{F64}
use risq.Hash.{SequencedMessageHash, PersistentMessageHash}
use risq.Amount.{new}
use risq.Currency.{Currency, from_code, bisq_internal_precision}
use risq.Market.{from_currency_pair}
use risq.Offer.{
  OfferDirection, OfferPrice, fixed, market_with_margin, OfferAmount, OpenOffer, new_offer,
  from_millis,
}
use risq.Offer
use risq.OfferBook.{Command, refresh_offer}
use risq.Statistics.Trade.{Trade, new_trade}
use risq.Payload.Types.{
  Direction, OfferPayload, StorageMessage, offer_payload, ProtectedStorageEntry,
  RefreshOfferMessage, TradeStatistics2, PersistableMessage, trade_statistics2,
  PersistableNetworkPayload,
}
use risq.Payload.Types
use risq.Payload.{Crypto, refresh_hash, bisq_hash}

-- `Direction::from_i32`, which `prost` derives from the numbers of the variants
abbrev direction_from_i32 : ℤ → Option Direction
direction_from_i32 (pos zero) = some Types.pb_error
direction_from_i32 (pos (suc zero)) = some Types.buy
direction_from_i32 (pos (suc (suc zero))) = some Types.sell
direction_from_i32 _ = none

-- `TryFrom<offer_payload::Direction>`
abbrev try_direction : Direction → Option OfferDirection
try_direction Types.buy = some Offer.buy
try_direction Types.sell = some Offer.sell
try_direction Types.pb_error = none

abbrev pub offer_direction : ℤ → Option OfferDirection
offer_direction n = do direction ← direction_from_i32 n; try_direction direction

module _ {F : Type 0} where
  abbrev pub offer_price : OfferPayload F → Currency → OfferPrice F
  offer_price payload counter =
      if payload.use_market_based_price
      then market_with_margin payload.market_price_margin
      else fixed (new (as_u64 payload.price) (bisq_internal_precision counter))

  abbrev pub offer_amount : OfferPayload F → Currency → OfferAmount
  offer_amount payload base = record {
    total = new (as_u64 payload.amount) (bisq_internal_precision base);
    min = new (as_u64 payload.min_amount) (bisq_internal_precision base);
  }

  -- The body of `open_offer`, for the payload of an offer.
  unfoldable pub offer_of_payload :
      ProtectedStorageEntry F → SequencedMessageHash → OfferPayload F → Option (OpenOffer F)
  offer_of_payload entry hash payload = do
    direction ← offer_direction payload.direction
    base ← from_code payload.base_currency_code
    counter ← from_code payload.counter_currency_code
    market ← from_currency_pair base counter
    some (
        new_offer hash market payload.id direction (offer_price payload counter)
          (offer_amount payload base) payload.payment_method_id payload.offer_fee_payment_tx_id
          (from_millis (as_u64 entry.creation_time_stamp)) entry.sequence_number)

  abbrev pub offer_of_message :
      ProtectedStorageEntry F → SequencedMessageHash → StorageMessage F → Option (OpenOffer F)
  offer_of_message entry hash (offer_payload payload) = offer_of_payload entry hash payload
  offer_of_message entry hash _ = none

  unfoldable pub open_offer : ProtectedStorageEntry F → SequencedMessageHash → Option (OpenOffer F)
  open_offer entry hash = do
    storage_payload ← entry.storage_payload
    message ← storage_payload.message
    offer_of_message entry hash message

module _ {F K : Type 0} (c : Crypto F K) where
  -- `refresh_offer`; `none` is the panic of `expect`.
  unfoldable pub convert_refresh : RefreshOfferMessage → Option (Command F)
  convert_refresh msg = do hash ← refresh_hash c msg; some (refresh_offer hash msg.sequence_number)

-- What `?` does to a result that may also be a panic.
abbrev pub try : {A B : Type 0} → Option A → (A → Option (Option B)) → Option (Option B)
try none k = some none
try (some a) k = k a

abbrev pub made : {A : Type 0} → Option A → Option (Option A)
made o = do a ← o; some (some a)

module _ {F K : Type 0} (c : Crypto F K) (f : F64 F) where
  unfoldable pub trade_of_stats : TradeStatistics2 → PersistentMessageHash → Option (Option Trade)
  trade_of_stats stats hash =
      if leb_ℤ stats.trade_price (pos 0) || leb_ℤ stats.trade_amount (pos 0)
      then some none
      else try (offer_direction stats.direction) λ direction.
        try (from_code stats.base_currency) λ base.
          try (from_code stats.counter_currency) λ counter.
            try (from_currency_pair base counter) λ market. made (
              new_trade f market direction stats.offer_id
                (new (as_u64 stats.trade_price) (bisq_internal_precision counter))
                (new (as_u64 stats.trade_amount) (bisq_internal_precision base))
                stats.payment_method_id (from_millis (as_u64 stats.trade_date)) hash)

  abbrev pub trade_of_message : PersistentMessageHash → PersistableMessage → Option (Option Trade)
  trade_of_message hash (trade_statistics2 stats) = trade_of_stats stats hash
  trade_of_message hash _ = some none

  -- `trade_statistics2`; the outer `none` is a panic.
  unfoldable pub convert_trade : PersistableNetworkPayload → Option (Option Trade)
  convert_trade payload = do hash ← bisq_hash c payload; try payload.message (trade_of_message hash)

-- ===== src/Api/Offers.antt =====
-- The query `offers` of src/api/graphql.rs, and the fields of its answer.
pub mod Views
use mathlib.Core.List.{Perm}
use risq.Base.{
  ℕ, compare, Ordering, String, string_eq, Bool, true, not, ◌||◌, ◌≡◌, Option, none, some, List, [],
  ◌∷◌, map, reverse, filter, All, ◌==◌,
}
use risq.Base.Sorted.{Ascending}
use risq.Base.HashMap.{HashMap}
use risq.Hash.{SequencedMessageHash}
use risq.Amount.{cmp, format}
use risq.Offer.{OpenOffer, OfferDirection, is_expired}
use risq.Offer
use risq.Api.BtcOffer.{btc_direction}
use risq.Api.Scalars.{Direction, offer_direction}

abbrev pub all_markets : String
all_markets = "all"

abbrev pub target_precision : ℕ
target_precision = 8

pub record Offers (F : Type 0) : Type 0 where
  pub market : String
  pub offers : List (OpenOffer F)

-- `==` on directions
abbrev pub same_direction : OfferDirection → OfferDirection → Bool
same_direction Offer.buy Offer.buy = true
same_direction Offer.sell Offer.sell = true
same_direction _ _ = not true

-- The tests of the filters that arguments may leave out.
abbrev pub in_pair : Option String → String → Bool
in_pair none pair = true
in_pair (some market) pair = market == all_markets || pair == market

abbrev pub in_direction : Option Direction → OfferDirection → Bool
in_direction none direction = true
in_direction (some wanted) direction = same_direction direction (offer_direction wanted)

abbrev pub values {ℓ κ} : {K : Type ℓ} {V : Type κ} → HashMap K V → List V
values [] = []
values ((k, v) ∷ m) = v ∷ values m

abbrev pub market_of : Option String → String
market_of none = all_markets
market_of (some market) = market

module _ {F : Type 0} where
  abbrev pub price_key : OpenOffer F → ℕ
  price_key o = o.display_price.base_amount

  abbrev pub HasPrecision : ℕ → OpenOffer F → Type 0
  HasPrecision precision o = o.display_price.precision ≡ precision

  -- The comparator of the sort in `field_offers`.
  abbrev pub price_order : OpenOffer F → OpenOffer F → Ordering
  price_order a b = cmp a.display_price b.display_price

  -- The offers of the filters in `field_offers`.
  abbrev pub wanted_offers :
      ℕ → Option String → Option Direction → List (OpenOffer F) → List (OpenOffer F)
  wanted_offers now market direction offers =
      filter (λ o. in_direction direction o.direction)
        (filter (λ o. not (is_expired now o)) (filter (λ o. in_pair market o.market.pair) offers))

-- `sort_unstable_by` of the standard library, for any comparator: it gives a permutation, which is
-- in the order of a key where the comparator compares that key of all that is sorted.
pub record PriceSort (F : Type 0) : Type 1 where
  pub sort : (OpenOffer F → OpenOffer F → Ordering) → List (OpenOffer F) → List (OpenOffer F)
  pub perm :
      (order : OpenOffer F → OpenOffer F → Ordering) (os : List (OpenOffer F))
      → Perm (sort order os) os
  pub sorted :
      (order : OpenOffer F → OpenOffer F → Ordering) (key : OpenOffer F → ℕ)
      (P : OpenOffer F → Type 0) (os : List (OpenOffer F))
      → All P os
      → ((a b : OpenOffer F) → P a → P b → order a b ≡ compare (key a) (key b))
      → Ascending key (sort order os)

module _ {F : Type 0} (by_price : PriceSort F) where
  unfoldable pub field_offers :
      ℕ → HashMap SequencedMessageHash (OpenOffer F) → Option String → Option Direction → Offers F
  field_offers now open_offers market direction = record {
    market = market_of market;
    offers = by_price.sort price_order (wanted_offers now market direction (values open_offers));
  }

module _ {F : Type 0} where
  -- `Offers::direction` and `Offers::btc_direction`
  abbrev pub of_direction : OfferDirection → Offers F → List (OpenOffer F)
  of_direction direction o = filter (λ p. same_direction p.direction direction) o.offers

  abbrev pub of_btc_direction : OfferDirection → Offers F → List (OpenOffer F)
  of_btc_direction direction o = filter (λ p. same_direction (btc_direction p) direction) o.offers

  abbrev pub field_buys : Offers F → List (OpenOffer F)
  field_buys o = reverse (of_direction Offer.buy o)

  abbrev pub field_sells : Offers F → List (OpenOffer F)
  field_sells o = of_direction Offer.sell o

  abbrev pub field_btc_buys : Offers F → List (OpenOffer F)
  field_btc_buys o = reverse (of_btc_direction Offer.buy o)

  abbrev pub field_btc_sells : Offers F → List (OpenOffer F)
  field_btc_sells o = of_btc_direction Offer.sell o

  abbrev formatted_price : OpenOffer F → List ℕ
  formatted_price o = format o.display_price target_precision

  unfoldable pub field_formatted_buy_prices : Offers F → List (List ℕ)
  field_formatted_buy_prices o = map formatted_price (of_direction Offer.buy o)

  unfoldable pub field_formatted_sell_prices : Offers F → List (List ℕ)
  field_formatted_sell_prices o = map formatted_price (of_direction Offer.sell o)

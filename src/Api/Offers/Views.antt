-- ===== src/Api/Offers/Views.antt =====
-- What the query `offers` of src/api/graphql.rs shows of the offer book.
use mathlib.Core.List.{Perm, perm_middle, reverse_perm}
use mathlib.Core.List.Perm
use text.Mathlib.TextEquality.{eq_iff}
use risq.Base.{
  ℕ, String, string_eq, ◌==◌, Bool, not, ◌&&◌, ◌≡◌, ◌≢◌, ◌<◌, ◌↔◌, and_parts, none, some, true,
  refl, ap, subst, ◌∙◌, Option, List, [], ◌∷◌, ◌++◌, filter, All, arith, Bool-cases, inl, inr,
}
use risq.Base.Sorted.{
  Ascending, Descending, filter-filter, filter-Ascending, reverse-Descending, All-reverse,
}
use risq.Amount.Scale.{cmp_same}
use risq.Base.HashMap.{HashMap}
use risq.Hash.{SequencedMessageHash}
use risq.Offer.{OpenOffer, OfferDirection, is_expired}
use risq.Offer
use risq.Api.Scalars.{Direction, buy, sell, offer_direction}
use risq.Api.Offers.{
  Offers, same_direction, in_pair, in_direction, values, price_key, market_of, HasPrecision,
  wanted_offers, PriceSort, price_order, field_offers, field_buys, field_sells,
}

same_sides : (d : OfferDirection) → same_direction d Offer.sell ≡ not (same_direction d Offer.buy)
same_sides d = ground arith

same_direction-eq : (d side : OfferDirection) → same_direction d side ≡ true → d ≡ side
same_direction-eq Offer.buy Offer.buy h = refl
same_direction-eq Offer.buy Offer.sell h = cc
same_direction-eq Offer.sell Offer.buy h = cc
same_direction-eq Offer.sell Offer.sell h = refl

in_pair-in_market :
    (market : Option String) (pair : String)
    → in_pair market pair ≡ true
    → (m : String) → market ≡ some m
    → m ≢ "all"
    → pair ≡ m
in_pair-in_market none pair h m e other = cc
in_pair-in_market (some n) pair h m e other = ground (arith, eq_iff n "all", eq_iff pair n)

in_market-in_pair :
    (market : Option String) (pair : String)
    → ((m : String) → market ≡ some m → m ≢ "all" → pair ≡ m)
    → in_pair market pair ≡ true
in_market-in_pair none pair h = refl
in_market-in_pair (some n) pair h = elim (Bool-cases (n == "all")) [
  | inl all ↦ rw all refl
  | inr other ↦ rw other ((eq_iff pair n).1 (h n refl (λ e. ground (arith, eq_iff n "all"))))
]

in_direction-on_side :
    (direction : Option Direction) (side : OfferDirection)
    → in_direction direction side ≡ true
    → (d : Direction) → direction ≡ some d
    → side ≡ offer_direction d
in_direction-on_side none side h d e = cc
in_direction-on_side (some buy) Offer.buy h d e = ground arith
in_direction-on_side (some buy) Offer.sell h d e = cc
in_direction-on_side (some sell) Offer.buy h d e = cc
in_direction-on_side (some sell) Offer.sell h d e = ground arith

on_side-in_direction :
    (direction : Option Direction) (side : OfferDirection)
    → ((d : Direction) → direction ≡ some d → side ≡ offer_direction d)
    → in_direction direction side ≡ true
on_side-in_direction none side h = refl
on_side-in_direction (some d) side h = ground (arith, h d refl)

module _ {F : Type 0} where
  -- Whether an offer answers the query.
  abbrev pub is_wanted : ℕ → Option String → Option Direction → OpenOffer F → Bool
  is_wanted now market direction o =
      (in_pair market o.market.pair && not (is_expired now o)) && in_direction direction o.direction

  -- What the arguments ask for: the market, unless it is left out or `all`, and the direction,
  -- unless it is left out; and that the offer has not expired.
  pub record IsWanted (now : ℕ) (market : Option String) (direction : Option Direction)
      (o : OpenOffer F) : Type 0 where
    pub in_market : (m : String) → market ≡ some m → m ≢ "all" → o.market.pair ≡ m
    pub alive : now < o.expires_at
    pub on_side : (d : Direction) → direction ≡ some d → o.direction ≡ offer_direction d

  is_wanted-IsWanted :
      (now : ℕ) (market : Option String) (direction : Option Direction) (o : OpenOffer F)
      → (is_wanted now market direction o ≡ true) ↔ IsWanted now market direction o
  unfolding is_expired
  is_wanted-IsWanted now market direction o = (
    (λ h.
        let (there, side) = and_parts _ (in_direction direction o.direction) h in
        let (here, live) = and_parts (in_pair market o.market.pair) _ there in
        record {
          in_market = in_pair-in_market market o.market.pair here;
          alive = ground (arith, live);
          on_side = in_direction-on_side direction o.direction side;
        }),
    (λ w.
        let here = in_market-in_pair market o.market.pair w.in_market in
        let side = on_side-in_direction direction o.direction w.on_side in
        let live : not (is_expired now o) ≡ true = ground (arith, w.alive) in
        rw (here, side, live) refl),
  )

  wanted_offers-filter :
      (now : ℕ) (market : Option String) (direction : Option Direction) (os : List (OpenOffer F))
      → wanted_offers now market direction os ≡ filter (is_wanted now market direction) os
  wanted_offers-filter now market direction os =
      let live = λ (o : OpenOffer F). not (is_expired now o) in
      let here = λ (o : OpenOffer F). in_pair market o.market.pair in
      ap (filter (λ o. in_direction direction o.direction)) (filter-filter live here os)
      ∙ filter-filter (λ o. in_direction direction o.direction) (λ o. here o && live o) os

  -- The sides of a list of offers.
  sides :
      (os : List (OpenOffer F))
      → Perm
          (filter (λ o. same_direction o.direction Offer.buy) os
            ++ filter (λ o. same_direction o.direction Offer.sell) os)
          os
  sides [] = Perm.refl []
  sides (o ∷ os) = elim (Bool-cases (same_direction o.direction Offer.buy)) [
    | inl buys ↦ rw (same_sides o.direction) (rw buys (Perm.cons o (sides os)))
    | inr sells ↦ rw (same_sides o.direction) (
        rw sells (
          Perm.trans
            (perm_middle (filter (λ p. same_direction p.direction Offer.buy) os)
              (filter (λ p. same_direction p.direction Offer.sell) os))
            (Perm.cons o (sides os))))
  ]

  abbrev pub OnSide : OfferDirection → OpenOffer F → Type 0
  OnSide side o = o.direction ≡ side

  filter-OnSide :
      (side : OfferDirection) (os : List (OpenOffer F))
      → All (OnSide side) (filter (λ o. same_direction o.direction side) os)
  filter-OnSide side [] = tt
  filter-OnSide side (o ∷ os) = elim (Bool-cases (same_direction o.direction side)) [
    | inl here ↦ rw here (same_direction-eq o.direction side here, filter-OnSide side os)
    | inr other ↦ rw other (filter-OnSide side os)
  ]

  -- The buys and the sells, each side with its best price first: the highest that is paid, and the
  -- lowest that is asked.
  pub record IsView (wanted : List (OpenOffer F)) (o : Offers F) : Type 0 where
    pub complete : Perm (field_buys o ++ field_sells o) wanted
    pub all_buys : All (OnSide Offer.buy) (field_buys o)
    pub all_sells : All (OnSide Offer.sell) (field_sells o)
    pub best_first :
        (precision : ℕ)
        → All (HasPrecision precision) wanted
        → Descending price_key (field_buys o) × Ascending price_key (field_sells o)

  sorted-IsView :
      (by_price : PriceSort F) (market : String) (os : List (OpenOffer F))
      → IsView os (record { market = market; offers = by_price.sort price_order os })
  sorted-IsView by_price market os =
      let sorted = by_price.sort price_order os in
      let buys = filter (λ o. same_direction o.direction Offer.buy) sorted in
      let sells = filter (λ o. same_direction o.direction Offer.sell) sorted in
      record {
        complete =
            Perm.trans (Perm.append_right sells (reverse_perm buys))
              (Perm.trans (sides sorted) (by_price.perm price_order os));
        all_buys = All-reverse (OnSide Offer.buy) buys (filter-OnSide Offer.buy sorted);
        all_sells = filter-OnSide Offer.sell sorted;
        best_first = λ precision same.
            let order =
              by_price.sorted price_order price_key (HasPrecision precision) os same
                (λ a b h k. cmp_same precision a.display_price b.display_price h k) in
            (
              reverse-Descending price_key buys (
                  filter-Ascending price_key (λ o. same_direction o.direction Offer.buy) sorted
                    order),
              filter-Ascending price_key (λ o. same_direction o.direction Offer.sell) sorted order,
            );
      }

  -- The buys and sells of an answer are just those offers of the book that are in the market and of
  -- the direction that are asked for and have not expired, each once: the offers to buy among the
  -- buys and the offers to sell among the sells. Where their prices have one precision, the buys go
  -- down from the highest price and the sells up from the lowest.
  pub field_offers-IsView :
      (by_price : PriceSort F) (now : ℕ) (open_offers : HashMap SequencedMessageHash (OpenOffer F))
      (market : Option String) (direction : Option Direction)
      → (wanted : OpenOffer F → Bool) × ((o : OpenOffer F)
          → (wanted o ≡ true) ↔ IsWanted now market direction o)
        × IsView
            (filter wanted (values open_offers))
            (field_offers by_price now open_offers market direction)
  unfolding field_offers
  field_offers-IsView by_price now open_offers market direction =
      let wanted = wanted_offers-filter now market direction (values open_offers) in
      (
        is_wanted now market direction,
        is_wanted-IsWanted now market direction,
        subst
            (λ os. IsView os (record {
              market = market_of market;
              offers =
                  by_price.sort price_order
                    (wanted_offers now market direction (values open_offers));
            }))
            wanted (sorted-IsView by_price (market_of market) _),
      )

-- ===== src/Api/Tests.antt =====
-- The queries of src/api/graphql.rs at work.
use mathlib.Core.List.{Perm}
use mathlib.Core.List.Perm
use Prim.Native.Nat.{lt, eq, gt}
use risq.Base.{
  ℕ, Bool, false, ◌≤◌, ◌≡◌, ◌↔◌, refl, true, none, some, List, [], ◌∷◌, filter, All, arith,
  string_eq, compare, Ordering, if◌then◌else◌, Bool-cases, inl, inr, All-imp,
}
use risq.Base.Int.{pos, negsuc}
use risq.Base.Text.{from_str}
use risq.Base.HashMap.{HashMap}
use risq.Base.Sorted.{Ascending}
use risq.Hash.{SequencedMessageHash}
use risq.Amount.{new}
use risq.Currency.{is_crypto, currency, crypto}
use risq.Market.{non_btc_side}
use risq.Offer.{OpenOffer}
use risq.OfferBook.Tests.{whole_f64, first_offer, second_offer}
use risq.Statistics.Tests.{history, history-IsOrdered, late}
use risq.Api.Scalars.{desc, asc}
use risq.Api.Offers.{PriceSort, field_offers, values}
use risq.Api.Offers.Views.{IsView, IsWanted, field_offers-IsView}
use risq.Api.Trades.{field_trades}
use risq.Api.Trades.Page.{Answers, field_trades-Answers}
use risq.Api.Fields.{open_offer_fields}
use risq.Api.Fields.Panics.{formatted_btc_amount-none}

-- A sort by insertion, for any comparator.
abbrev Order : Type 0
Order = OpenOffer ℕ → OpenOffer ℕ → Ordering

abbrev not_above : Order → OpenOffer ℕ → OpenOffer ℕ → Bool
not_above order o p = elim (order o p) [ lt ↦ true | eq ↦ true | gt ↦ false ]

insert_by : Order → OpenOffer ℕ → List (OpenOffer ℕ) → List (OpenOffer ℕ)
insert_by order o [] = o ∷ []
insert_by order o (p ∷ ps) =
    let rest = insert_by order o ps in if not_above order o p then o ∷ p ∷ ps else p ∷ rest

sort_by : Order → List (OpenOffer ℕ) → List (OpenOffer ℕ)
unfolding insert_by
sort_by order [] = []
sort_by order (o ∷ os) = insert_by order o (sort_by order os)

insert_by-perm :
    (order : Order) (o : OpenOffer ℕ) (os : List (OpenOffer ℕ))
    → Perm (insert_by order o os) (o ∷ os)
unfolding insert_by
insert_by-perm order o [] = Perm.refl (o ∷ [])
insert_by-perm order o (p ∷ ps) = elim (Bool-cases (not_above order o p)) [
  | inl below ↦ rw below (Perm.refl (o ∷ p ∷ ps))
  | inr above ↦ rw above (Perm.trans (Perm.cons p (insert_by-perm order o ps)) (Perm.swap o p ps))
]

sort_by-perm : (order : Order) (os : List (OpenOffer ℕ)) → Perm (sort_by order os) os
unfolding sort_by
sort_by-perm order [] = Perm.refl []
sort_by-perm order (o ∷ os) =
    Perm.trans (insert_by-perm order o (sort_by order os)) (Perm.cons o (sort_by-perm order os))

All-insert_by :
    (P : OpenOffer ℕ → Type 0) (order : Order) (o : OpenOffer ℕ) (os : List (OpenOffer ℕ))
    → P o
    → All P os
    → All P (insert_by order o os)
unfolding insert_by
All-insert_by P order o [] h k = (h, tt)
All-insert_by P order o (p ∷ ps) h k = elim (Bool-cases (not_above order o p)) [
  | inl below ↦ rw below (h, k)
  | inr above ↦ rw above (k.0, All-insert_by P order o ps h k.1)
]

All-sort_by :
    (P : OpenOffer ℕ → Type 0) (order : Order) (os : List (OpenOffer ℕ))
    → All P os
    → All P (sort_by order os)
unfolding sort_by
All-sort_by P order [] h = tt
All-sort_by P order (o ∷ os) h =
    All-insert_by P order o (sort_by order os) h.0 (All-sort_by P order os h.1)

module _ (order : Order) (key : OpenOffer ℕ → ℕ) (P : OpenOffer ℕ → Type 0)
    (agrees : (a b : OpenOffer ℕ) → P a → P b → order a b ≡ compare (key a) (key b)) where
  insert_by-Ascending :
      (o : OpenOffer ℕ) (os : List (OpenOffer ℕ))
      → P o
      → All P os
      → Ascending key os
      → Ascending key (insert_by order o os)
  unfolding insert_by
  insert_by-Ascending o [] q r h = (tt, tt)
  insert_by-Ascending o (p ∷ ps) q r h = elim (Bool-cases (not_above order o p)) [
    | inl below ↦
        let low : key o ≤ key p = ground (arith, agrees o p q r.0, below) in
        rw below ((low, All-imp ps (λ s k. omega (arith, low, k)) h.0), h)
    | inr above ↦
        let low : key p ≤ key o = ground (arith, agrees o p q r.0, above) in
        rw above (
          All-insert_by (λ s. key p ≤ key s) order o ps low h.0,
          insert_by-Ascending o ps q r.1 h.1,
        )
  ]

  sort_by-Ascending : (os : List (OpenOffer ℕ)) → All P os → Ascending key (sort_by order os)
  unfolding sort_by
  sort_by-Ascending [] h = tt
  sort_by-Ascending (o ∷ os) h =
      insert_by-Ascending o (sort_by order os) h.0 (All-sort_by P order os h.1)
        (sort_by-Ascending os h.1)

abbrev by_price : PriceSort ℕ
by_price = record {
  sort = sort_by;
  perm = sort_by-perm;
  sorted = λ order key P os every agrees. sort_by-Ascending order key P agrees os every;
}

abbrev open_offers : HashMap SequencedMessageHash (OpenOffer ℕ)
open_offers = (first_offer.bisq_hash, first_offer) ∷ (second_offer.bisq_hash, second_offer) ∷ []

field_offers-IsView_example :
    (wanted : OpenOffer ℕ → Bool) × ((o : OpenOffer ℕ)
      → (wanted o ≡ true) ↔ IsWanted 9 (some "btc_eur") none o)
    × IsView
        (filter wanted (values open_offers))
        (field_offers by_price 9 open_offers (some "btc_eur") none)
field_offers-IsView_example = field_offers-IsView by_price 9 open_offers (some "btc_eur") none

the_latest : field_trades 1000 history none none none none (pos 1) desc ≡ some (late ∷ [])
unfolding field_trades
the_latest = refl

field_trades-Answers_example :
    Answers 1000 history (some "btc_eur") none none (some "soon") (negsuc 0) asc
unfolding from_str
field_trades-Answers_example =
    field_trades-Answers 1000 history (some "btc_eur") none none (some "soon") (negsuc 0) asc
      history-IsOrdered tt (λ n e. cc)

-- Monero for Bitcoin at a price that is not known.
abbrev unpriced : OpenOffer ℕ
unpriced = record second_offer {
  market = record {
    pair = "xmr_btc";
    name = "Monero/Bitcoin";
    left = currency "XMR" "Monero" crypto;
    right = currency "BTC" "Bitcoin" crypto;
  };
  display_price = new 0 0;
}

formatted_btc_amount-none_example :
    ((open_offer_fields whole_f64 unpriced).formatted_btc_amount ≡ none)
    ↔ ((is_crypto (non_btc_side unpriced.market) ≡ true) × (unpriced.display_price.base_amount ≡ 0))
formatted_btc_amount-none_example = formatted_btc_amount-none whole_f64 unpriced

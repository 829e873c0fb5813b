-- ===== src/PriceFeed/Order.antt =====
-- Reading and updating prices in src/domain/price_feed.rs: codes and times.
use risq.Base.{
  ℕ, String, ◌≡◌, ◌≤◌, refl, ap, ◌∙◌, sym, Option, none, some, List, [], ◌∷◌, arith, ltb, ltb→le,
  subst, ◌==◌, string_eq, beq→eq, Bool-cases, inl, inr,
}
use risq.Base.HashMap.{HashMap, get, insert, get-insert}
use risq.F64.{F64}
use risq.Currency.{Currency, from_code}
use risq.Offer.{PriceData}
use risq.PriceFeed.{PriceDataRaw, from_raw, price_of, invalid, newer, collect, update_prices}

module _ {F : Type 0} where
  -- A price of the feed is read without a panic, whatever currency it names.
  pub from_raw_total :
      (f : F64 F) (raw : PriceDataRaw F) → (d : PriceData F) × (from_raw f raw ≡ some d)
  unfolding from_raw from_code
  from_raw_total f raw = total (from_code raw.currency_code)
    where
      total : (o : Option Currency) → (d : PriceData F) × (price_of f raw o ≡ some d)
      total none = (_, refl)
      total (some c) = (_, refl)

  abbrev pub Reaches : HashMap String (PriceData F) → String → ℕ → Type 0
  Reaches m c low =
      (b : PriceData F) → get c m ≡ some b → (b.currency.code ≡ c) × (low ≤ b.timestamp)

  newer_bound :
      (c : String) (a d b : PriceData F)
      → a.currency.code ≡ c
      → d.currency.code ≡ c
      → newer (some a) d ≡ b
      → (b.currency.code ≡ c) × (a.timestamp ≤ b.timestamp)
  newer_bound c a d b own at e =
      let bound : (PriceData F → Type 0) =
        λ x. (x.currency.code ≡ c) × (a.timestamp ≤ x.timestamp) in
      subst bound e (elim (Bool-cases (ltb d.timestamp a.timestamp)) [
        | inl older ↦ rw older (own, omega arith)
        | inr recent ↦ rw recent (at, ltb→le _ _ recent)
      ])

  collect-Reaches :
      (old : HashMap String (PriceData F)) (ds : List (PriceData F))
      (new : HashMap String (PriceData F)) (c : String) (a : PriceData F)
      → get c old ≡ some a
      → a.currency.code ≡ c
      → Reaches new c a.timestamp
      → Reaches (collect old ds new) c a.timestamp
  unfolding collect
  collect-Reaches old [] new c a found own h = h
  collect-Reaches old (d ∷ ds) new c a found own h =
      let code = d.currency.code in
      let next = insert code (newer (get code old) d) new in
      let here : Reaches next c a.timestamp = λ b k. elim (Bool-cases (code == c)) [
        | inl same ↦
            let at : code ≡ c = beq→eq code c same in
            let stored : get code old ≡ some a = ap (λ x. get x old) at ∙ found in
            let taken : get c next ≡ some (newer (get code old) d) =
              get-insert code c (newer (get code old) d) new ∙ rw same refl in
            let e : some (newer (some a) d) ≡ some b =
              sym (ap (λ o. some (newer o d)) stored) ∙ sym taken ∙ k in
            newer_bound c a d b own at cc
        | inr other ↦ ground (arith, get-insert code c (newer (get code old) d) new, h b)
      ] in
      elim (Bool-cases (d.provider == invalid)) [
        | inl skip ↦ rw skip (collect-Reaches old ds new c a found own h)
        | inr keep ↦ rw keep (collect-Reaches old ds next c a found own here)
      ]

  -- Where a currency had a price under its code and still has one after an update, it stands under
  -- its code, and is no older.
  pub update_prices-newer :
      (response : List (PriceData F)) (old : HashMap String (PriceData F)) (c : String)
      (a b : PriceData F)
      → get c old ≡ some a
      → a.currency.code ≡ c
      → get c (update_prices response old) ≡ some b
      → (b.currency.code ≡ c) × (a.timestamp ≤ b.timestamp)
  unfolding update_prices get
  update_prices-newer response old c a b found own k =
      collect-Reaches old response [] c a found own none_yet b k
    where
      none_yet : Reaches [] c a.timestamp
      none_yet b h = cc

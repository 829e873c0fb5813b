-- ===== src/OfferBook.antt =====
-- src/domain/offer/offer_book.rs: the open offers by their hash. A handler takes the clock's
-- reading and the actor's state, and returns the new state with the reply. One reading serves a
-- whole handler; the source reads the clock again for each offer of a sweep.
pub mod View
pub mod Invariant
pub mod Sequence
pub mod Tests
use risq.Base.{ℕ, String, Bool, true, false, Option, none, some, List, [], ◌∷◌, if◌then◌else◌}
use risq.Base.Int.{ℤ}
use risq.Base.HashMap.{HashMap, get, insert, remove, filter_map}
use risq.F64.{F64}
use risq.Hash.{SequencedMessageHash, sequenced_eq}
use risq.Offer.{OpenOffer, PriceData, is_expired, would_refresh, refresh, update_display_price}

-- Of src/domain/mod.rs.
pub data CommandResult : Type 0 where
  accepted ignored : CommandResult

pub record OfferBook (F : Type 0) : Type 0 where
  pub open_offers : HashMap SequencedMessageHash (OpenOffer F)
  pub price_data : HashMap String (PriceData F)

-- src/domain/offer/message.rs, and the timer of the actor with the price feed's answer: `none`
-- where the feed did not answer. `GetOpenOffers` is `open_offers`.
pub data Command (F : Type 0) : Type 0 where
  add_offer : OpenOffer F → Command F
  remove_offer : OpenOffer F → Command F
  refresh_offer : SequencedMessageHash → ℤ → Command F
  check_ttl : Option (HashMap String (PriceData F)) → Command F

module _ {F : Type 0} where
  -- `OfferBook::start`
  abbrev pub start : OfferBook F
  start = record { open_offers = []; price_data = [] }

  -- The guard of `AddOffer` for an offer that has not expired.
  abbrev pub replaces : Option (OpenOffer F) → OpenOffer F → Bool
  replaces none offer = true
  replaces (some existing) offer = would_refresh existing offer.latest_sequence

  module _ (f : F64 F) where
    -- `Handler<AddOffer>`
    unfoldable pub handle_add : ℕ → OpenOffer F → OfferBook F → OfferBook F × CommandResult
    handle_add now offer book =
        let offer' = update_display_price f offer book.price_data in
        if is_expired now offer
        then (book, ignored)
        else if replaces (get offer'.bisq_hash book.open_offers) offer'
        then (
          record book { open_offers = insert offer'.bisq_hash offer' book.open_offers },
          accepted,
        )
        else (book, ignored)

    -- What a sweep does with one offer.
    abbrev pub sweep :
        ℕ → HashMap String (PriceData F) → SequencedMessageHash → OpenOffer F → Option (OpenOffer F)
    sweep now price_data hash offer =
        if is_expired now offer then none else some (update_display_price f offer price_data)

    abbrev pub new_prices :
        Option (HashMap String (PriceData F)) → OfferBook F → HashMap String (PriceData F)
    new_prices none book = book.price_data
    new_prices (some price_data) book = price_data

    -- The closure that the actor runs every `CHECK_TTL_INTERVAL`.
    unfoldable pub handle_check_ttl :
        ℕ → Option (HashMap String (PriceData F)) → OfferBook F → OfferBook F
    handle_check_ttl now maybe_data book =
        let price_data = new_prices maybe_data book in
        record {
          open_offers = filter_map (sweep now price_data) book.open_offers;
          price_data = price_data;
        }

  -- `Handler<RemoveOffer>`
  unfoldable pub handle_remove : OpenOffer F → OfferBook F → OfferBook F × CommandResult
  handle_remove offer book = elim (get offer.bisq_hash book.open_offers) [
    | none ↦ (book, ignored)
    | some _ ↦ (record book { open_offers = remove offer.bisq_hash book.open_offers }, accepted)
  ]

  -- The store through `get_mut`, and the reply of `refresh`.
  abbrev refreshed :
      SequencedMessageHash → OfferBook F → OpenOffer F × Bool → OfferBook F × CommandResult
  refreshed hash book (offer, true) =
      (record book { open_offers = insert hash offer book.open_offers }, accepted)
  refreshed hash book (offer, false) =
      (record book { open_offers = insert hash offer book.open_offers }, ignored)

  -- `Handler<RefreshOffer>`
  unfoldable pub handle_refresh :
      ℕ → SequencedMessageHash → ℤ → OfferBook F → OfferBook F × CommandResult
  handle_refresh now bisq_hash sequence book = elim (get bisq_hash book.open_offers) [
    | none ↦ (book, ignored)
    | some offer ↦
        if would_refresh offer sequence
        then refreshed bisq_hash book (refresh now offer sequence)
        else (book, ignored)
  ]

module _ {F : Type 0} (f : F64 F) where
  unfoldable pub handle : ℕ → Command F → OfferBook F → OfferBook F × CommandResult
  handle now (add_offer offer) book = handle_add f now offer book
  handle now (remove_offer offer) book = handle_remove offer book
  handle now (refresh_offer hash sequence) book = handle_refresh now hash sequence book
  handle now (check_ttl maybe_data) book = (handle_check_ttl f now maybe_data book, ignored)

  -- The mailbox, each message with the time at which it is handled.
  unfoldable pub run : List (ℕ × Command F) → OfferBook F → OfferBook F
  run [] book = book
  run ((now, c) ∷ rest) book = run rest (handle now c book).0

-- ===== src/OfferBook/Sequence.antt =====
-- Replies of the offer book, its sequence numbers, and what a sweep leaves.
use risq.Base.{
  ℕ, ◌+◌, String, ◌≡◌, refl, sym, ap, ◌∙◌, Bool, false, Option, none, some, arith, if◌then◌else◌,
  Bool-cases, Option-cases, inl, inr,
}
use risq.Base.Int.{ℤ, ◌≤ℤ◌, ltb_ℤ}
use risq.Base.HashMap.{
  HashMap, get, insert, bind, contains_key, get-filter_map, get-insert, get-remove,
}
use risq.F64.{F64}
use risq.Hash.{SequencedMessageHash, sequenced_eq}
use risq.Amount.{NumberWithPrecision}
use risq.Offer.{
  OpenOffer, PriceData, refresh_ttl, is_expired, would_refresh, refresh, update_display_price,
}
use risq.OfferBook.{
  replaces, OfferBook, CommandResult, accepted, ignored, Command, add_offer, remove_offer,
  refresh_offer, check_ttl, handle, handle_add, handle_remove, handle_refresh, handle_check_ttl,
  sweep, new_prices,
}
use risq.OfferBook.Invariant.{IsValid}
use risq.OfferBook.View.{view, accepts, spec, view-handle}

module _ {F : Type 0} (f : F64 F) (now : ℕ) (book : OfferBook F) where
  abbrev reply : Bool → CommandResult
  reply b = if b then accepted else ignored

  abbrev newer : Option (OpenOffer F) → ℤ → Bool
  newer none s = false
  newer (some o) s = would_refresh o s

  -- The replies: `accepted` for an offer that has not expired and is new or newer, for a removal of
  -- a hash that is there, for a refresh that is newer.
  abbrev pub expected : Command F → CommandResult
  expected (add_offer o) = reply (accepts f now o (view book))
  expected (remove_offer o) = reply (contains_key o.bisq_hash book.open_offers)
  expected (refresh_offer h s) = reply (newer (get h book.open_offers) s)
  expected (check_ttl d) = ignored

  replied : (c : Command F) → (handle f now c book).1 ≡ expected c
  unfolding handle handle_add handle_remove handle_refresh update_display_price refresh
      would_refresh view contains_key
  replied (add_offer o) = ground arith
  replied (remove_offer o) = ground arith
  replied (refresh_offer h s) = ground arith
  replied (check_ttl d) = refl

  -- What the sender of a message may rely on once it is accepted: the offer is stored as it is but
  -- for its display price, the hash is gone, or the stored offer has the sequence number and the
  -- time of expiry of the refresh.
  abbrev pub Done : Command F → OfferBook F → Type 0
  Done (add_offer o) b =
      (price : NumberWithPrecision) × (get o.bisq_hash b.open_offers
        ≡ some (record o { display_price = price }))
  Done (remove_offer o) b = get o.bisq_hash b.open_offers ≡ none
  Done (refresh_offer h s) b =
      (o : OpenOffer F) × (get h b.open_offers ≡ some o)
      × (o.latest_sequence ≡ s)
      × (o.expires_at ≡ now + refresh_ttl)
  Done (check_ttl d) b = Unit

  -- What a reply says of the book after the message.
  abbrev pub Effect : Command F → CommandResult → OfferBook F → Type 0
  Effect c accepted after = Done c after
  Effect (check_ttl d) ignored after = Unit
  Effect c ignored after = after ≡ book

  stored :
      (h : SequencedMessageHash) (o : OpenOffer F) → get h (insert h o book.open_offers) ≡ some o
  stored h o = ground (arith, get-insert h h o book.open_offers, sequenced_eq.beq_iff h h)

  effect : (c : Command F) → Effect c (handle f now c book).1 (handle f now c book).0
  unfolding handle handle_add handle_remove handle_refresh update_display_price refresh
      would_refresh
  effect (add_offer o) = elim (Bool-cases (is_expired now o)) [
    | inl old ↦ rw (old, Effect) refl
    | inr young ↦
        rw (young, Effect)
          (elim (Bool-cases (
            replaces (get o.bisq_hash book.open_offers)
              (update_display_price f o book.price_data))) [
                | inl new_one ↦
                    rw (new_one, Effect, Done)
                      (_, stored o.bisq_hash (update_display_price f o book.price_data))
                | inr known ↦ rw (known, Effect) refl
              ])
  ]
  effect (remove_offer o) = elim (Option-cases (get o.bisq_hash book.open_offers)) [
    | inl missing ↦ rw (missing, Effect) (ground (arith, missing))
    | inr (p, found) ↦
        rw (found, Effect, Done)
          (ground (
            arith,
            found,
            get-remove o.bisq_hash o.bisq_hash book.open_offers,
            sequenced_eq.beq_iff o.bisq_hash o.bisq_hash,
          ))
  ]
  effect (refresh_offer h s) = elim (Option-cases (get h book.open_offers)) [
    | inl missing ↦ rw (missing, Effect) (ground (arith, missing))
    | inr (p, found) ↦
        rw (found, Effect, Done)
          (elim (Bool-cases (ltb_ℤ p.latest_sequence s)) [
            | inl newer_one ↦
                rw (newer_one, Effect, Done)
                  (let fresh : OpenOffer F = record p {
                    expires_at = now + refresh_ttl;
                    latest_sequence = s;
                  } in
                    (fresh, ground (arith, found, newer_one, stored h fresh), refl, refl))
            | inr old ↦ rw (old, Effect) (ground (arith, found, old))
          ])
  ]
  effect (check_ttl d) = tt

  -- Every message to any book is answered by `accepted` exactly where it adds an offer
  -- that has not expired and whose hash is new or whose sequence number is higher than the stored
  -- one's, where it removes a hash that is in the book, or where it refreshes one there by a higher
  -- sequence number. After that answer the offer is in the book, but for its display price as it
  -- came; the hash is not in the book any more; or the offer in the book has the sequence number of
  -- the refresh and expires nine minutes from now. A message of these that is ignored leaves the
  -- book as it was.
  pub handle_reply :
      (c : Command F)
      → ((handle f now c book).1 ≡ expected c)
        × Effect c (handle f now c book).1 (handle f now c book).0
  handle_reply c = (replied c, effect c)

  spec_monotone :
      (c : Command F) (j : SequencedMessageHash) (o o' : OpenOffer F)
      → (view book).offers j ≡ some o
      → (spec f now c (view book)).offers j ≡ some o'
      → o.latest_sequence ≤ℤ o'.latest_sequence
  unfolding spec would_refresh update_display_price
  spec_monotone (add_offer p) j o o' h k = ground (arith, sequenced_eq.beq_iff p.bisq_hash j)
  spec_monotone (remove_offer p) j o o' h k = ground arith
  spec_monotone (refresh_offer i s) j o o' h k = ground arith
  spec_monotone (check_ttl none) j o o' h k = ground arith
  spec_monotone (check_ttl (some d)) j o o' h k = ground arith

  -- In a well-formed book, no message lowers the sequence number of a hash that stays in the book.
  pub sequence_monotone :
      (c : Command F) (j : SequencedMessageHash) (o o' : OpenOffer F)
      → IsValid book
      → get j book.open_offers ≡ some o
      → get j (handle f now c book).0.open_offers ≡ some o'
      → o.latest_sequence ≤ℤ o'.latest_sequence
  unfolding view
  sequence_monotone c j o o' v h k =
      spec_monotone c j o o' h (sym (ap (λ w. w.offers j) (view-handle f now c book v)) ∙ k)

  -- After a sweep of a well-formed book just the offers that have not expired are left, each with
  -- its display price by the feed's prices, or by the old ones where the feed did not answer.
  pub check_ttl_sweeps :
      (d : Option (HashMap String (PriceData F))) (j : SequencedMessageHash)
      → IsValid book
      → get j (handle f now (check_ttl d) book).0.open_offers
        ≡ bind (get j book.open_offers) (λ o.
          if is_expired now o then none else some (update_display_price f o (new_prices f d book)))
  unfolding handle handle_check_ttl
  check_ttl_sweeps d j v =
      get-filter_map (sweep f now (new_prices f d book)) j book.open_offers v.distinct

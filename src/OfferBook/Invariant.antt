-- ===== src/OfferBook/Invariant.antt =====
-- The well-formedness of the offer book.
use risq.Base.{
  ℕ, String, ◌≡◌, refl, sym, ◌∙◌, Bool, true, false, Option, none, some, List, [], ◌∷◌, arith,
  Option-cases, inl, inr, if◌then◌else◌,
}
use risq.Base.Int.{ℤ}
use risq.Base.HashMap.{
  HashMap, get, insert, bind, Distinct, get-insert, get-remove, get-filter_map, insert-Distinct,
  remove-Distinct, filter_map-Distinct,
}
use risq.F64.{F64}
use risq.Hash.{SequencedMessageHash, sequenced_eq}
use risq.Offer.{OpenOffer, PriceData, is_expired, would_refresh, refresh, update_display_price}
use risq.OfferBook.{
  OfferBook, CommandResult, ignored, replaces, refreshed, Command, add_offer, remove_offer,
  refresh_offer, check_ttl, start, handle, handle_add, handle_remove, handle_refresh,
  handle_check_ttl, run, sweep, new_prices,
}

-- No hash stands twice, and each offer stands under its own hash.
pub record IsValid {F : Type 0} (book : OfferBook F) : Type 0 where
  pub distinct : Distinct book.open_offers
  pub own_hash :
      (j : SequencedMessageHash) (o : OpenOffer F)
      → get j book.open_offers ≡ some o
      → o.bisq_hash ≡ j

module _ {F : Type 0} where
  pub start-IsValid : IsValid (start {F = F})
  unfolding get
  start-IsValid = record { distinct = tt; own_hash = λ j o h. cc }

  insert_own :
      (book : OfferBook F) (o : OpenOffer F) (h : SequencedMessageHash)
      → h ≡ o.bisq_hash
      → IsValid book
      → IsValid (record book { open_offers = insert h o book.open_offers })
  insert_own book o h own v = record {
    distinct = insert-Distinct h o book.open_offers v.distinct;
    own_hash = λ j p found.
        ground (arith, get-insert h j o book.open_offers, sequenced_eq.beq_iff h j, v.own_hash j p);
  }

  if-IsValid :
      (b : Bool) (x y : OfferBook F × CommandResult)
      → IsValid x.0
      → IsValid y.0
      → IsValid (if b then x else y).0
  if-IsValid true x y h k = h
  if-IsValid false x y h k = k

  remove-IsValid :
      (o : OpenOffer F) (book : OfferBook F) → IsValid book → IsValid (handle_remove o book).0
  unfolding handle_remove
  remove-IsValid o book v = elim (Option-cases (get o.bisq_hash book.open_offers)) [
    | inl e ↦ rw (e, handle_remove) v
    | inr (p, e) ↦
        rw (e, handle_remove)
          (record {
            distinct = remove-Distinct o.bisq_hash book.open_offers v.distinct;
            own_hash = λ j q found.
                ground (arith, get-remove o.bisq_hash j book.open_offers, v.own_hash j q);
          })
  ]

  refresh-hash : (now : ℕ) (o : OpenOffer F) (s : ℤ) → (refresh now o s).0.bisq_hash ≡ o.bisq_hash
  unfolding refresh
  refresh-hash now o s = ground arith

  refreshed-IsValid :
      (h : SequencedMessageHash) (book : OfferBook F) (r : OpenOffer F × Bool)
      → h ≡ r.0.bisq_hash
      → IsValid book
      → IsValid (refreshed h book r).0
  refreshed-IsValid h book (o, true) own v = insert_own book o h own v
  refreshed-IsValid h book (o, false) own v = insert_own book o h own v

  refresh-IsValid :
      (now : ℕ) (h : SequencedMessageHash) (s : ℤ) (book : OfferBook F)
      → IsValid book
      → IsValid (handle_refresh now h s book).0
  unfolding handle_refresh
  refresh-IsValid now h s book v = elim (Option-cases (get h book.open_offers)) [
    | inl e ↦ rw (e, handle_refresh) v
    | inr (o, e) ↦
        rw (e, handle_refresh)
          (if-IsValid (would_refresh o s) (refreshed h book (refresh now o s)) (book, ignored)
            (refreshed-IsValid h book (refresh now o s)
              (sym (refresh-hash now o s ∙ v.own_hash h o e)) v)
            v)
  ]

  module _ (f : F64 F) where
    add-IsValid :
        (now : ℕ) (o : OpenOffer F) (book : OfferBook F)
        → IsValid book
        → IsValid (handle_add f now o book).0
    unfolding handle_add
    add-IsValid now o book v =
        let o' = update_display_price f o book.price_data in
        let kept : OfferBook F × CommandResult = (book, ignored) in
        if-IsValid (is_expired now o) kept _ v (
          if-IsValid (replaces (get o'.bisq_hash book.open_offers) o') _ kept
            (insert_own book o' o'.bisq_hash refl v) v)

    sweep-hash :
        (now : ℕ) (prices : HashMap String (PriceData F)) (j : SequencedMessageHash)
        (o : Option (OpenOffer F)) (p : OpenOffer F)
        → ((q : OpenOffer F) → o ≡ some q → q.bisq_hash ≡ j)
        → bind o (sweep f now prices j) ≡ some p
        → p.bisq_hash ≡ j
    unfolding update_display_price
    sweep-hash now prices j none p own h = cc
    sweep-hash now prices j (some o) p own h = ground (arith, own o refl)

    check_ttl-IsValid :
        (now : ℕ) (d : Option (HashMap String (PriceData F))) (book : OfferBook F)
        → IsValid book
        → IsValid (handle_check_ttl f now d book)
    unfolding handle_check_ttl
    check_ttl-IsValid now d book v =
        let prices = new_prices f d book in
        record {
          distinct = filter_map-Distinct (sweep f now prices) book.open_offers v.distinct;
          own_hash = λ j p found.
              sweep-hash now prices j (get j book.open_offers) p (v.own_hash j)
                (sym (get-filter_map (sweep f now prices) j book.open_offers v.distinct) ∙ found);
        }

    -- Every message keeps a well-formed book well-formed: no hash twice, and each offer under its
    -- own.
    pub handle-IsValid :
        (now : ℕ) (c : Command F) (book : OfferBook F)
        → IsValid book
        → IsValid (handle f now c book).0
    unfolding handle
    handle-IsValid now (add_offer o) book v = add-IsValid now o book v
    handle-IsValid now (remove_offer o) book v = remove-IsValid o book v
    handle-IsValid now (refresh_offer h s) book v = refresh-IsValid now h s book v
    handle-IsValid now (check_ttl d) book v = check_ttl-IsValid now d book v

    -- Whatever the messages and the times are, a well-formed book stays well-formed.
    pub run-IsValid :
        (cs : List (ℕ × Command F)) (book : OfferBook F) → IsValid book → IsValid (run f cs book)
    unfolding run
    run-IsValid [] book v = v
    run-IsValid ((now, c) ∷ cs) book v =
        run-IsValid cs (handle f now c book).0 (handle-IsValid now c book v)

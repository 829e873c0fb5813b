-- ===== src/OfferBook/View.antt =====
-- What the offer book promises: a map from hashes to offers that each message changes as written
-- here, whatever the hash map's representation is.
use risq.Base.{
  ℕ, String, ◌≡◌, refl, ap, ◌∙◌, fun_ext, Bool, not, ◌&&◌, Option, none, some, List, [], ◌∷◌, arith,
  Option-cases, inl, inr, ◌==◌, if◌then◌else◌, ◌+◌,
}
use risq.Base.Int.{ℤ}
use risq.Base.HashMap.{HashMap, get, bind, get-insert, get-remove, get-filter_map}
use risq.F64.{F64}
use risq.Hash.{SequencedMessageHash, sequenced_eq}
use risq.Offer.{
  OpenOffer, PriceData, is_expired, would_refresh, refresh, refresh_ttl, update_display_price,
}
use risq.OfferBook.{
  OfferBook, replaces, Command, add_offer, remove_offer, refresh_offer, check_ttl, handle,
  handle_add, handle_remove, handle_refresh, handle_check_ttl, run, sweep,
}
use risq.OfferBook.Invariant.{IsValid, handle-IsValid}

pub record View (F : Type 0) : Type 0 where
  pub offers : SequencedMessageHash → Option (OpenOffer F)
  pub prices : HashMap String (PriceData F)

module _ {F : Type 0} where
  unfoldable pub view : OfferBook F → View F
  view book = record { offers = λ j. get j book.open_offers; prices = book.price_data }

  View-path :
      (v w : View F)
      → ((j : SequencedMessageHash) → v.offers j ≡ w.offers j)
      → v.prices ≡ w.prices
      → v ≡ w
  View-path v w same prices = λ i. record { offers = fun_ext same i; prices = prices i }

  -- A refresh that is newer sets the sequence number and a new time to live.
  abbrev pub renew : ℕ → ℤ → OpenOffer F → OpenOffer F
  renew now sequence o =
      if would_refresh o sequence
      then record o { latest_sequence = sequence; expires_at = now + refresh_ttl }
      else o

  abbrev pub map_option : (OpenOffer F → OpenOffer F) → Option (OpenOffer F) → Option (OpenOffer F)
  map_option g none = none
  map_option g (some o) = some (g o)

  module _ (f : F64 F) where
    abbrev pub accepts : ℕ → OpenOffer F → View F → Bool
    accepts now o v = not (is_expired now o) && replaces (v.offers o.bisq_hash) o

    -- An offer that has not expired stays, priced anew.
    abbrev pub unexpired : ℕ → HashMap String (PriceData F) → OpenOffer F → Option (OpenOffer F)
    unexpired now prices o =
        if is_expired now o then none else some (update_display_price f o prices)

    unfoldable pub spec : ℕ → Command F → View F → View F
    spec now (add_offer o) v = record v {
      offers = λ j.
          if o.bisq_hash == j && accepts now o v
          then some (update_display_price f o v.prices)
          else v.offers j;
    }
    spec now (remove_offer o) v = record v {
      offers = λ j. if o.bisq_hash == j then none else v.offers j;
    }
    spec now (refresh_offer h s) v = record v {
      offers = λ j. if h == j then map_option (renew now s) (v.offers j) else v.offers j;
    }
    spec now (check_ttl none) v = record v {
      offers = λ j. bind (v.offers j) (unexpired now v.prices);
    }
    spec now (check_ttl (some prices)) v = record {
      offers = λ j. bind (v.offers j) (unexpired now prices);
      prices = prices;
    }

    view-add :
        (now : ℕ) (o : OpenOffer F) (book : OfferBook F)
        → view (handle_add f now o book).0 ≡ spec now (add_offer o) (view book)
    unfolding view spec handle_add update_display_price
    view-add now o book =
        View-path _ _
          (λ j. ground (
            arith,
            get-insert o.bisq_hash j (update_display_price f o book.price_data) book.open_offers,
          ))
          (ground arith)

    view-remove :
        (now : ℕ) (o : OpenOffer F) (book : OfferBook F)
        → view (handle_remove o book).0 ≡ spec now (remove_offer o) (view book)
    unfolding view spec handle_remove
    view-remove now o book =
        View-path _ _
          (λ j.
            ground (
              arith,
              get-remove o.bisq_hash j book.open_offers,
              sequenced_eq.beq_iff o.bisq_hash j,
            ))
          (ground arith)

    view-refresh :
        (now : ℕ) (h : SequencedMessageHash) (s : ℤ) (book : OfferBook F)
        → view (handle_refresh now h s book).0 ≡ spec now (refresh_offer h s) (view book)
    unfolding view spec handle_refresh refresh would_refresh
    view-refresh now h s book = elim (Option-cases (get h book.open_offers)) [
      | inl e ↦ View-path _ _ (λ j. ground (arith, e, sequenced_eq.beq_iff h j)) (ground (arith, e))
      | inr (o, e) ↦
          View-path _ _
            (λ j.
              ground (
                arith,
                e,
                get-insert h j (renew now s o) book.open_offers,
                sequenced_eq.beq_iff h j,
              ))
            (ground (arith, e))
    ]

    view-check_ttl :
        (now : ℕ) (d : Option (HashMap String (PriceData F))) (book : OfferBook F)
        → IsValid book
        → view (handle_check_ttl f now d book) ≡ spec now (check_ttl d) (view book)
    unfolding view spec handle_check_ttl
    view-check_ttl now none book v = λ i. record {
      prices = book.price_data;
      offers =
          fun_ext (λ j. get-filter_map (sweep f now book.price_data) j book.open_offers v.distinct)
            i;
    }
    view-check_ttl now (some d) book v = λ i. record {
      prices = d;
      offers = fun_ext (λ j. get-filter_map (sweep f now d) j book.open_offers v.distinct) i;
    }

    -- Every message changes a well-formed book as `spec` says.
    pub view-handle :
        (now : ℕ) (c : Command F) (book : OfferBook F)
        → IsValid book
        → view (handle f now c book).0 ≡ spec now c (view book)
    unfolding handle
    view-handle now (add_offer o) book v = view-add now o book
    view-handle now (remove_offer o) book v = view-remove now o book
    view-handle now (refresh_offer h s) book v = view-refresh now h s book
    view-handle now (check_ttl d) book v = view-check_ttl now d book v

    unfoldable pub spec_run : List (ℕ × Command F) → View F → View F
    spec_run [] v = v
    spec_run ((now, c) ∷ cs) v = spec_run cs (spec now c v)

    -- From a well-formed book, any messages at any times lead where `spec` leads.
    pub view-run :
        (cs : List (ℕ × Command F)) (book : OfferBook F)
        → IsValid book
        → view (run f cs book) ≡ spec_run cs (view book)
    unfolding run spec_run
    view-run [] book v = refl
    view-run ((now, c) ∷ cs) book v =
        view-run cs (handle f now c book).0 (handle-IsValid f now c book v)
        ∙ ap (spec_run cs) (view-handle now c book v)

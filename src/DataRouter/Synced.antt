-- ===== src/DataRouter/Synced.antt =====
-- The offer book never knows more of an offer than the router.
use risq.Base.{
  ℕ, ◌≡◌, refl, sym, ◌∙◌, false, Option, none, some, List, [], ◌∷◌, arith, subst, >>=-eq-some,
  some-injective, beq_refl, if◌then◌else◌, not, ◌&&◌,
}
use risq.Base.Int.{ℤ}
use risq.Base.HashMap.{get}
use risq.F64.{F64}
use risq.Hash.{SequencedMessageHash, sequenced_eq}
use risq.Offer.{OpenOffer, is_expired, would_refresh, update_display_price}
use risq.OfferBook.{
  OfferBook, Command, add_offer, remove_offer, refresh_offer, check_ttl, accepted, ignored,
  replaces,
}
use risq.OfferBook
use risq.OfferBook.Invariant.{IsValid, start-IsValid, handle-IsValid}
use risq.OfferBook.View.{View, view, spec, view-handle}
use risq.OfferBook.Sequence.{handle_reply}
use risq.Payload.{Crypto}
use risq.Statistics.Cache.{
  StatsCache, TradeSort, new_cache-IsValid, insert-IsValid, bootstrap-IsValid,
}
use risq.Statistics.Cache
use risq.DataRouter.State.{Sent, ResultHandler, to_offer_book, to_stats_cache, to_stats_bootstrap}
use risq.DataRouter.{handle}
use risq.DataRouter.Order.{
  tag, tagged, Above, Upto, latest, known, Rising, Rising-lower, Rising-append, Above-none,
}
use risq.DataRouter.Rising.{handle-Continues}
use risq.DataRouter.Delivery.{
  System, initial, Event, received, delivered, swept, deliver_sent, deliver_next, on_event,
  run_events,
}

module _ {F : Type 0} where
  abbrev pub offer_sequence : Option (OpenOffer F) → Option ℤ
  offer_sequence none = none
  offer_sequence (some o) = some o.latest_sequence

  -- The sequence number that the book has for a hash.
  abbrev pub booked : SequencedMessageHash → OfferBook F → Option ℤ
  booked h book = offer_sequence (get h book.open_offers)

  module _ (f : F64 F) (now : ℕ) where
    spec_bound :
        (c : Command F) (h : SequencedMessageHash) (v : View F)
        → Above (offer_sequence (v.offers h)) (tagged h (tag c))
        → Upto
            (offer_sequence ((spec f now c v).offers h))
            (latest (tagged h (tag c)) (offer_sequence (v.offers h)))
    unfolding spec would_refresh update_display_price
    spec_bound (add_offer o) h v a = ground (arith, sequenced_eq.beq_iff o.bisq_hash h)
    spec_bound (remove_offer o) h v a = ground (arith, sequenced_eq.beq_iff o.bisq_hash h)
    spec_bound (refresh_offer i s) h v a = ground (arith, sequenced_eq.beq_iff i h)
    spec_bound (check_ttl none) h v a = ground arith
    spec_bound (check_ttl (some prices)) h v a = ground arith

    handle_bound :
        (c : Command F) (h : SequencedMessageHash) (book : OfferBook F)
        → IsValid book
        → Above (booked h book) (tagged h (tag c))
        → Upto
            (booked h (OfferBook.handle f now c book).0)
            (latest (tagged h (tag c)) (booked h book))
    unfolding view
    handle_bound c h book v a =
        subst (λ w. Upto (offer_sequence (w.offers h)) (latest (tagged h (tag c)) (booked h book)))
          (sym (view-handle f now c book v)) (spec_bound c h (view book) a)

-- The book and the cache are well-formed; and for each hash, the messages in the queue have rising
-- sequence numbers, above the book's and up to the router's.
pub record IsSynced {F : Type 0} (s : System F) : Type 0 where
  pub book_valid : IsValid s.book
  pub cache_valid : Cache.IsValid s.cache
  pub order : (h : SequencedMessageHash) → Rising h (booked h s.book) s.queue (known h s.router)

module _ {F : Type 0} where
  pub initial-IsSynced : IsSynced {F = F} initial
  unfolding Rising get
  initial-IsSynced = record {
    book_valid = start-IsValid;
    cache_valid = new_cache-IsValid;
    order = λ h. tt;
  }

module _ {F : Type 0} (f : F64 F) (by_time : TradeSort) where
  deliver_sent-IsSynced :
      (now : ℕ) (m : Sent F) (rest : List (Sent F)) (s : System F)
      → s.queue ≡ m ∷ rest
      → IsSynced s
      → IsSynced (deliver_sent f by_time now m (record s { queue = rest }))
  unfolding Rising
  deliver_sent-IsSynced now (to_offer_book command handler) rest s e v = record {
    book_valid = handle-IsValid f now command s.book v.book_valid;
    cache_valid = v.cache_valid;
    order = λ h.
        let (first, more) =
          subst (λ q. Rising h (booked h s.book) q (known h s.router)) e (v.order h) in
        Rising-lower h _ _ rest (known h s.router)
          (handle_bound f now command h s.book v.book_valid first) more;
  }
  deliver_sent-IsSynced now (to_stats_cache trade handler) rest s e v = record {
    book_valid = v.book_valid;
    cache_valid = insert-IsValid trade s.cache v.cache_valid;
    order = λ h. (subst (λ q. Rising h (booked h s.book) q (known h s.router)) e (v.order h)).1;
  }
  deliver_sent-IsSynced now (to_stats_bootstrap trades) rest s e v = record {
    book_valid = v.book_valid;
    cache_valid = bootstrap-IsValid by_time trades s.cache v.cache_valid;
    order = λ h. (subst (λ q. Rising h (booked h s.book) q (known h s.router)) e (v.order h)).1;
  }

  deliver_next-IsSynced :
      (now : ℕ) (queue : List (Sent F)) (s : System F)
      → s.queue ≡ queue
      → IsSynced s
      → IsSynced (deliver_next f by_time now queue s)
  deliver_next-IsSynced now [] s e v = v
  deliver_next-IsSynced now (m ∷ rest) s e v = deliver_sent-IsSynced now m rest s e v

module _ {F K : Type 0} (c : Crypto F K) (f : F64 F) (by_time : TradeSort) where
  on_event-IsSynced :
      (e : Event F) (s : System F) {s' : System F}
      → on_event c f by_time e s ≡ some s'
      → IsSynced s
      → IsSynced s'
  unfolding on_event
  on_event-IsSynced (received now origin dispatch) s h v =
      let ((router, out), h1, h2) = >>=-eq-some (handle c f now origin dispatch s.router) _ h in
      subst IsSynced (some-injective h2) (record {
        book_valid = v.book_valid;
        cache_valid = v.cache_valid;
        order = λ i.
            Rising-append i _ (known i s.router) (known i router) s.queue out (v.order i)
              (handle-Continues c f now origin dispatch s.router h1 i);
      })
  on_event-IsSynced (delivered now) s h v =
      subst IsSynced (some-injective h) (deliver_next-IsSynced f by_time now s.queue s refl v)
  on_event-IsSynced (swept now prices) s h v = subst IsSynced (some-injective h) (record {
    book_valid = handle-IsValid f now (check_ttl prices) s.book v.book_valid;
    cache_valid = v.cache_valid;
    order = λ i.
        Rising-lower i _ _ s.queue (known i s.router)
          (handle_bound f now (check_ttl prices) i s.book v.book_valid
            (Above-none (booked i s.book)))
          (v.order i);
  })

  -- In every state that events lead to from a synced one without a panic, whatever their order, the
  -- book and the cache are well-formed and the messages that wait for the book have, for each hash,
  -- rising sequence numbers, above the book's and up to the router's.
  pub run_events-IsSynced :
      (es : List (Event F)) (s : System F) {s' : System F}
      → run_events c f by_time es s ≡ some s'
      → IsSynced s
      → IsSynced s'
  unfolding run_events
  run_events-IsSynced [] s h v = subst IsSynced (some-injective h) v
  run_events-IsSynced (e ∷ es) s h v =
      let (s1, h1, h2) = >>=-eq-some (on_event c f by_time e s) _ h in
      run_events-IsSynced es s1 h2 (on_event-IsSynced e s h1 v)

  -- After any events from the start that do not make the router panic: where the next message in
  -- the queue adds an offer that has not expired, the offer book accepts it.
  pub add_accepted :
      (es : List (Event F)) {s : System F} (now : ℕ) (o : OpenOffer F) (handler : ResultHandler F)
      (rest : List (Sent F))
      → run_events c f by_time es initial ≡ some s
      → s.queue ≡ to_offer_book (add_offer o) handler ∷ rest
      → is_expired now o ≡ false
      → (OfferBook.handle f now (add_offer o) s.book).1 ≡ accepted
  unfolding Rising view would_refresh
  add_accepted es {s} now o handler rest h e fresh =
      let v = run_events-IsSynced es initial h initial-IsSynced in
      let (first, more) =
        subst (λ q. Rising o.bisq_hash (booked o.bisq_hash s.book) q (known o.bisq_hash s.router)) e
          (v.order o.bisq_hash) in
      (handle_reply f now s.book (add_offer o)).0
      ∙ replaced (get o.bisq_hash s.book.open_offers) (rw (beq_refl o.bisq_hash) at first)
    where
      replaced :
          (existing : Option (OpenOffer F))
          → Above (offer_sequence existing) (some o.latest_sequence)
          → (if not (is_expired now o) && replaces existing o then accepted else ignored) ≡ accepted
      replaced none a = rw fresh refl
      replaced (some p) a = ground (arith, fresh, a)

-- ===== src/DataRouter/Order.antt =====
-- The sequence numbers of what the router sends to the offer book.
use risq.Base.{
  ◌≡◌, refl, sym, ap, Bool, true, false, Option, none, some, List, [], ◌∷◌, ◌++◌, arith,
  if◌then◌else◌, ◌==◌, beq→eq, subst,
}
use risq.Base.Int.{ℤ, ◌≤ℤ◌, ◌<ℤ◌}
use risq.Base.HashMap.{get, get-insert}
use risq.Hash.{SequencedMessageHash, sequenced_eq}
use risq.OfferBook.{Command, add_offer, remove_offer, refresh_offer, check_ttl}
use risq.DataRouter.State.{
  DataRouter, SequencedMessageInfo, Sent, Outcome, to_offer_book, to_stats_cache,
  to_stats_bootstrap, set_info,
}

abbrev pub Above : Option ℤ → Option ℤ → Type 0
Above none s = Unit
Above (some l) none = Unit
Above (some l) (some s) = l <ℤ s

-- Nothing is known, or what is known is at most as high.
abbrev pub Upto : Option ℤ → Option ℤ → Type 0
Upto none up = Unit
Upto (some a) none = ⊥
Upto (some a) (some b) = a ≤ℤ b

abbrev pub latest : Option ℤ → Option ℤ → Option ℤ
latest none lo = lo
latest (some s) lo = some s

abbrev pub tagged : SequencedMessageHash → Option (SequencedMessageHash × ℤ) → Option ℤ
tagged h none = none
tagged h (some (i, s)) = if i == h then some s else none

pub Upto-refl : (a : Option ℤ) → Upto a a
Upto-refl none = tt
Upto-refl (some a) = omega arith

pub Upto-trans : (a b d : Option ℤ) → Upto a b → Upto b d → Upto a d
Upto-trans none b d p q = tt
Upto-trans (some a) none d p q = absurd p
Upto-trans (some a) (some b) none p q = absurd q
Upto-trans (some a) (some b) (some d) p q = omega arith

pub Above-Upto : (a b s : Option ℤ) → Upto a b → Above b s → Above a s
Above-Upto none b s p q = tt
Above-Upto (some a) none s p q = absurd p
Above-Upto (some a) (some b) none p q = tt
Above-Upto (some a) (some b) (some s) p q = omega arith

pub Above-none : (a : Option ℤ) → Above a none
Above-none none = tt
Above-none (some a) = tt

Upto-Above : (a : Option ℤ) (s : ℤ) → Above a (some s) → Upto a (some s)
Upto-Above none s p = tt
Upto-Above (some a) s p = omega arith

latest-Upto : (s a b : Option ℤ) → Upto a b → Upto (latest s a) (latest s b)
latest-Upto none a b p = p
latest-Upto (some s) a b p = omega arith

-- Where a sequence number is stored that is higher than the stored one, with or without a message.
stored-Upto :
    (b : Bool) (k k' : Option ℤ) (s : ℤ)
    → (b ≡ true → k ≡ k')
    → Above k' (some s)
    → Upto k (if b then some s else k)
stored-Upto true k k' s e a = Upto-Above k s (subst (λ o. Above o (some s)) (sym (e refl)) a)
stored-Upto false k k' s e a = Upto-refl k

stored-Above :
    (b : Bool) (k k' : Option ℤ) (s : ℤ)
    → (b ≡ true → k ≡ k')
    → Above k' (some s)
    → Above k (if b then some s else none)
      × Upto (latest (if b then some s else none) k) (if b then some s else k)
stored-Above true k k' s e a = (subst (λ o. Above o (some s)) (sym (e refl)) a, omega arith)
stored-Above false k k' s e a = (Above-none k, Upto-refl k)

module _ {F : Type 0} where
  -- The hash and the sequence number of a message to the offer book.
  abbrev pub tag : Command F → Option (SequencedMessageHash × ℤ)
  tag (add_offer o) = some (o.bisq_hash, o.latest_sequence)
  tag (remove_offer o) = some (o.bisq_hash, o.latest_sequence)
  tag (refresh_offer h s) = some (h, s)
  tag (check_ttl prices) = none

  abbrev pub sent_tag : Sent F → Option (SequencedMessageHash × ℤ)
  sent_tag (to_offer_book command handler) = tag command
  sent_tag (to_stats_cache trade handler) = none
  sent_tag (to_stats_bootstrap trades) = none

  -- The sequence number that the router knows for a hash.
  abbrev pub sequence_of : Option (SequencedMessageInfo F) → Option ℤ
  sequence_of none = none
  sequence_of (some info) = some info.sequence

  abbrev pub known : SequencedMessageHash → DataRouter F → Option ℤ
  known h router = sequence_of (get h router.sequenced_message_info)

  -- The messages for the hash `h` have rising sequence numbers, above `lo` and up to `up`.
  unfoldable pub Rising : SequencedMessageHash → Option ℤ → List (Sent F) → Option ℤ → Type 0
  Rising h lo [] up = Upto lo up
  Rising h lo (m ∷ q) up =
      Above lo (tagged h (sent_tag m)) × Rising h (latest (tagged h (sent_tag m)) lo) q up

  pub Rising-lower :
      (h : SequencedMessageHash) (a b : Option ℤ) (q : List (Sent F)) (up : Option ℤ)
      → Upto a b
      → Rising h b q up
      → Rising h a q up
  unfolding Rising
  Rising-lower h a b [] up p r = Upto-trans a b up p r
  Rising-lower h a b (m ∷ q) up p (first, rest) =
      let s = tagged h (sent_tag m) in
      (
        Above-Upto a b s p first,
        Rising-lower h (latest s a) (latest s b) q up (latest-Upto s a b p) rest,
      )

  pub Rising-append :
      (h : SequencedMessageHash) (a b d : Option ℤ) (q q' : List (Sent F))
      → Rising h a q b
      → Rising h b q' d
      → Rising h a (q ++ q') d
  unfolding Rising
  Rising-append h a b d [] q' r r' = Rising-lower h a b q' d r r'
  Rising-append h a b d (m ∷ q) q' (first, rest) r' =
      (first, Rising-append h (latest (tagged h (sent_tag m)) a) b d q q' rest r')

  -- At most one message, for the hash and the sequence number.
  abbrev pub IsOnly : SequencedMessageHash → ℤ → List (Sent F) → Type 0
  IsOnly hash s [] = Unit
  IsOnly hash s (m ∷ []) = sent_tag m ≡ some (hash, s)
  IsOnly hash s (m ∷ (n ∷ q)) = ⊥

  known-set_info :
      (h hash : SequencedMessageHash) (info : SequencedMessageInfo F) (router : DataRouter F)
      → known h (set_info hash info router)
        ≡ (if hash == h then some info.sequence else known h router)
  known-set_info h hash info router =
      ground (arith, get-insert hash h info router.sequenced_message_info)

  known-eq :
      (h hash : SequencedMessageHash) (router : DataRouter F)
      → hash == h ≡ true
      → known h router ≡ known hash router
  known-eq h hash router same = ap (λ i. known i router) (sym (beq→eq hash h same))

  pub set_info-Rising :
      (h hash : SequencedMessageHash) (s : ℤ) (info : SequencedMessageInfo F)
      (router : DataRouter F) (out : List (Sent F))
      → info.sequence ≡ s
      → Above (known hash router) (some s)
      → IsOnly hash s out
      → Rising h (known h router) out (known h (set_info hash info router))
  unfolding Rising
  set_info-Rising h hash s info router [] e a o =
      rw (known-set_info h hash info router, e)
        (stored-Upto (hash == h) (known h router) (known hash router) s (known-eq h hash router) a)
  set_info-Rising h hash s info router (m ∷ []) e a o =
      rw (o, known-set_info h hash info router, e)
        (stored-Above (hash == h) (known h router) (known hash router) s (known-eq h hash router) a)
  set_info-Rising h hash s info router (m ∷ (n ∷ q)) e a o = absurd o

  -- What a handler keeps: the messages that it sends for a hash continue those that were sent.
  abbrev pub Continues : DataRouter F → Outcome F → Type 0
  Continues router (router', out) =
      (h : SequencedMessageHash) → Rising h (known h router) out (known h router')

  pub Continues-same : (router : DataRouter F) → Continues router (router, [])
  unfolding Rising
  Continues-same router h = Upto-refl (known h router)

  pub Continues-append :
      (r r' r'' : DataRouter F) (out more : List (Sent F))
      → Continues r (r', out)
      → Continues r' (r'', more)
      → Continues r (r'', out ++ more)
  Continues-append r r' r'' out more p q h =
      Rising-append h (known h r) (known h r') (known h r'') out more (p h) (q h)

-- ===== src/Convert/Keeps.antt =====
-- What the conversions of src/daemon/convert.rs keep of a message.
use risq.Base.{◌≡◌, some, >>=-eq-some, arith}
use risq.Hash.{SequencedMessageHash}
use risq.Currency.{from_code}
use risq.Market.{from_currency_pair}
use risq.Offer.{OpenOffer, new_offer}
use risq.Payload.Types.{
  StorageMessage, alert, arbitrator, mediator, filter, trade_statistics, mailbox_storage_payload,
  offer_payload, temp_proposal_payload, refund_agent, OfferPayload, ProtectedStorageEntry,
}
use risq.Convert.{open_offer, offer_of_message, offer_of_payload, offer_direction}

module _ {F : Type 0} (entry : ProtectedStorageEntry F) (hash : SequencedMessageHash) where
  -- The offer stands under the hash and has the entry's sequence number.
  abbrev pub IsOf : OpenOffer F → Type 0
  IsOf o = (o.bisq_hash ≡ hash) × (o.latest_sequence ≡ entry.sequence_number)

  offer_of_payload-IsOf :
      (payload : OfferPayload F) {o : OpenOffer F}
      → offer_of_payload entry hash payload ≡ some o
      → IsOf o
  unfolding offer_of_payload new_offer
  offer_of_payload-IsOf payload {o} h =
      let (direction, d, h1) = >>=-eq-some (offer_direction payload.direction) _ h in
      let (base, b, h2) = >>=-eq-some (from_code payload.base_currency_code) _ h1 in
      let (counter, k, h3) = >>=-eq-some (from_code payload.counter_currency_code) _ h2 in
      let (market, m, h4) = >>=-eq-some (from_currency_pair base counter) _ h3 in ground (arith, h4)

  offer_of_message-IsOf :
      (message : StorageMessage F) {o : OpenOffer F}
      → offer_of_message entry hash message ≡ some o
      → IsOf o
  offer_of_message-IsOf (offer_payload payload) h = offer_of_payload-IsOf payload h
  offer_of_message-IsOf (alert key rest) h = ground arith
  offer_of_message-IsOf (arbitrator ring rest) h = ground arith
  offer_of_message-IsOf (mediator ring rest) h = ground arith
  offer_of_message-IsOf (filter key rest) h = ground arith
  offer_of_message-IsOf (trade_statistics key rest) h = ground arith
  offer_of_message-IsOf (mailbox_storage_payload key rest) h = ground arith
  offer_of_message-IsOf (temp_proposal_payload key rest) h = ground arith
  offer_of_message-IsOf (refund_agent ring rest) h = ground arith

  -- The offer that an entry converts to stands under the given hash, and has the sequence number of
  -- the entry.
  pub open_offer-IsOf : {o : OpenOffer F} → open_offer entry hash ≡ some o → IsOf o
  unfolding open_offer
  open_offer-IsOf {o} h =
      let (payload, p, h1) = >>=-eq-some entry.storage_payload _ h in
      let (message, m, h2) = >>=-eq-some payload.message _ h1 in offer_of_message-IsOf message h2

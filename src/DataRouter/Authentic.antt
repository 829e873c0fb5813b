-- ===== src/DataRouter/Authentic.antt =====
-- Whom the messages come from that src/daemon/data_router.rs lets through to the offer book.
use mathlib.Core.List.{Mem}
use risq.Base.{
  ℕ, ◌≡◌, refl, sym, ap, ◌∙◌, Bool, true, false, Option, none, some, List, [], arith, inl, inr, All,
  All-append, Bool-cases, Option-cases, some-injective, if◌then◌else◌, some-injective, subst,
}
use risq.Base.Int.{ℤ, ltb_ℤ}
use risq.Base.HashMap.{get, get-insert}
use risq.F64.{F64}
use risq.Hash.{SequencedMessageHash, sequenced_eq, persistent_eq}
use risq.Offer.{OpenOffer}
use risq.OfferBook
use risq.P2p.Status.{ConnectionId}
use risq.OfferBook.{Command, add_offer, remove_offer, refresh_offer, check_ttl}
use risq.Payload.Types.{StoragePayload, ProtectedStorageEntry}
use risq.Payload.{
  Crypto, payload_hash, signing_pub_key_bytes, StoragePayloadKind, offer_kind, unknown_kind,
  storage_payload_kind, verify_entry,
}
use risq.Convert.{open_offer}
use risq.Convert.Keeps.{open_offer-IsOf}
use risq.DataRouter.State.{
  DataRouter, SequencedMessageInfo, Sent, ResultHandler, Outcome, to_offer_book, to_stats_cache,
  to_stats_bootstrap, set_info, should_deliver_sequenced, new_info, renewed, DataRouterDispatch,
}
use risq.DataRouter.Storage.{route_verified, offer_sent, storage_sent, without_owner}
use risq.DataRouter.{handle}
use risq.Payload.Verify.{IsSigned, verify_entry-IsOwned, verify_refresh-IsSigned}
use risq.DataRouter.Frame.{IsFrame, entries}
use risq.DataRouter.Induct.{handle_induct}

module _ {F K : Type 0} (c : Crypto F K) where
  -- The payload stands under its own hash, with the key that it names.
  abbrev pub IsSigner : SequencedMessageHash → SequencedMessageInfo F → Type 0
  IsSigner hash info =
      (payload_hash c info.original_payload ≡ hash)
      × (signing_pub_key_bytes info.original_payload ≡ some info.owner_pub_key)

  -- So does every payload that the router knows.
  abbrev pub IsValid : DataRouter F → Type 0
  IsValid router =
      (hash : SequencedMessageHash) (info : SequencedMessageInfo F)
      → get hash router.sequenced_message_info ≡ some info
      → IsSigner hash info

  -- The offer is what a verified entry of the list holds.
  abbrev pub IsFromEntry : List (ProtectedStorageEntry F) → OpenOffer F → Type 0
  IsFromEntry es o =
      (entry : ProtectedStorageEntry F) × Mem entry es
      × (verify_entry c entry ≡ some o.bisq_hash)
      × (open_offer (without_owner entry) o.bisq_hash ≡ some o)

  -- The key that the payload of the hash names has signed the payload with the sequence number.
  abbrev pub IsRefreshed : SequencedMessageHash → ℤ → Type 0
  IsRefreshed hash s =
      (payload : StoragePayload F) × (key signature : List ℕ) × (payload_hash c payload ≡ hash)
      × (signing_pub_key_bytes payload ≡ some key)
      × IsSigned c key signature payload s

  -- What a message to the offer book must have behind it; the entries are those received.
  abbrev pub IsAuthentic : List (ProtectedStorageEntry F) → Sent F → Type 0
  IsAuthentic es (to_offer_book (add_offer o) handler) = IsFromEntry es o
  IsAuthentic es (to_offer_book (remove_offer o) handler) = IsFromEntry es o
  IsAuthentic es (to_offer_book (OfferBook.refresh_offer h s) handler) = IsRefreshed h s
  IsAuthentic es (to_offer_book (check_ttl prices) handler) = ⊥
  IsAuthentic es (to_stats_cache t handler) = Unit
  IsAuthentic es (to_stats_bootstrap ts) = Unit

  abbrev Kept : List (ProtectedStorageEntry F) → Outcome F → Type 0
  Kept es (router, out) = IsValid router × All (IsAuthentic es) out

  abbrev Keeps : List (ProtectedStorageEntry F) → DataRouter F → Outcome F → Type 0
  Keeps es router o = IsValid router → Kept es o

  Keeps-IsFrame : (es : List (ProtectedStorageEntry F)) → IsFrame (Keeps es)
  Keeps-IsFrame es = record {
    same = λ router ids v. (v, tt);
    append = λ r r' r'' out more p q v.
        let (v', a) = p v in let (v'', b) = q v' in (v'', All-append (IsAuthentic es) out more a b);
    stats = λ router ids t handler v. (v, (tt, tt));
    boot = λ router ts v. (v, (tt, tt));
  }

  set_info-IsValid :
      (hash : SequencedMessageHash) (info : SequencedMessageInfo F) (router : DataRouter F)
      → IsSigner hash info
      → IsValid router
      → IsValid (set_info hash info router)
  set_info-IsValid hash info router signer v j found e = ground (
    arith,
    get-insert hash j info router.sequenced_message_info,
    sequenced_eq.beq_iff hash j,
    v j found,
  )

  deliver-IsValid :
      (now : ℕ) (hash : SequencedMessageHash) (s : ℤ) (owner_pub_key : List ℕ)
      (payload : StoragePayload F) (router : DataRouter F)
      → IsSigner hash (new_info now s owner_pub_key payload)
      → IsValid router
      → IsValid (should_deliver_sequenced now hash s owner_pub_key payload router).0
  unfolding should_deliver_sequenced
  deliver-IsValid now hash s owner_pub_key payload router signer v =
      elim (Option-cases (get hash router.sequenced_message_info)) [
        | inl new ↦
            rw (new, should_deliver_sequenced)
              (set_info-IsValid hash (new_info now s owner_pub_key payload) router signer v)
        | inr (info, old) ↦ elim (Bool-cases (ltb_ℤ info.sequence s)) [
          | inl newer ↦
              rw (old, newer, should_deliver_sequenced)
                (set_info-IsValid hash (renewed now s info) router (v hash info old) v)
          | inr stale ↦ rw (old, stale, should_deliver_sequenced) v
        ]
      ]

  module _ (es : List (ProtectedStorageEntry F)) (entry : ProtectedStorageEntry F)
      (hash : SequencedMessageHash) (member : Mem entry es)
      (verified : verify_entry c entry ≡ some hash) where
    from_entry :
        (o : OpenOffer F) → open_offer (without_owner entry) hash ≡ some o → IsFromEntry es o
    from_entry o e =
        let same : hash ≡ o.bisq_hash = sym (open_offer-IsOf (without_owner entry) hash e).0 in
        (
          entry,
          member,
          verified ∙ ap some same,
          ap (open_offer (without_owner entry)) (sym same) ∙ e,
        )

    offer_sent-IsAuthentic :
        (removing : Bool) (handler : ResultHandler F) (o : Option (OpenOffer F))
        → open_offer (without_owner entry) hash ≡ o
        → All (IsAuthentic es) (offer_sent removing handler o)
    offer_sent-IsAuthentic removing handler none e = tt
    offer_sent-IsAuthentic true handler (some o) e = (from_entry o e, tt)
    offer_sent-IsAuthentic false handler (some o) e = (from_entry o e, tt)

    sent-IsAuthentic :
        (deliver removing : Bool) (handler : ResultHandler F) (kind : StoragePayloadKind)
        → All
            (IsAuthentic es)
            (if deliver then storage_sent removing handler (without_owner entry) hash kind else [])
    sent-IsAuthentic false removing handler kind = tt
    sent-IsAuthentic true removing handler offer_kind =
        offer_sent-IsAuthentic removing handler (open_offer (without_owner entry) hash) refl
    sent-IsAuthentic true removing handler unknown_kind = tt

  verify_entry-IsSigner :
      (now : ℕ) (entry : ProtectedStorageEntry F) (hash : SequencedMessageHash)
      (payload : StoragePayload F)
      → verify_entry c entry ≡ some hash
      → entry.storage_payload ≡ some payload
      → IsSigner hash (new_info now entry.sequence_number entry.owner_pub_key_bytes payload)
  verify_entry-IsSigner now entry hash payload verified at =
      let (p, (found, key, same, signed)) = verify_entry-IsOwned c entry verified in
      let is_p : p ≡ payload = some-injective (sym found ∙ at) in
      (
        subst (λ q. payload_hash c q ≡ hash) is_p same,
        subst (λ q. signing_pub_key_bytes q ≡ some entry.owner_pub_key_bytes) is_p key,
      )

  route_verified-Keeps :
      (es : List (ProtectedStorageEntry F)) (now : ℕ) (removing : Bool)
      (entry : ProtectedStorageEntry F) (handler : ResultHandler F) (hash : SequencedMessageHash)
      (payload : StoragePayload F) (router : DataRouter F)
      → Mem entry es
      → verify_entry c entry ≡ some hash
      → entry.storage_payload ≡ some payload
      → Keeps es router (route_verified c now removing entry handler hash payload router)
  unfolding route_verified
  route_verified-Keeps es now removing entry handler hash payload router m verified at v =
      go
        (should_deliver_sequenced now hash entry.sequence_number entry.owner_pub_key_bytes payload
          router)
        (deliver-IsValid now hash entry.sequence_number entry.owner_pub_key_bytes payload router
          (verify_entry-IsSigner now entry hash payload verified at) v)
    where
      sends : List (Sent F)
      sends =
          storage_sent removing handler (without_owner entry) hash
            (storage_payload_kind entry.storage_payload)

      go :
          (answer : DataRouter F × Bool)
          → IsValid answer.0
          → Kept es (if answer.1 then (answer.0, sends) else (answer.0, []))
      go (r, true) valid = (
        valid,
        sent-IsAuthentic es entry hash m verified true removing handler
            (storage_payload_kind entry.storage_payload),
      )
      go (r, false) valid = (valid, tt)

module _ {F K : Type 0} (c : Crypto F K) (f : F64 F) where
  -- From a router that knows the payloads under their hashes and their signers, a handler that does
  -- not panic leads to such a router, and what it sends to the offer book is authentic: an offer
  -- added or removed is what an entry of the message holds, and the entry is verified for the
  -- offer's hash; a refresh is one that the signer of the payload of its hash has signed.
  pub handle-IsAuthentic :
      (now : ℕ) (origin : ConnectionId) (dispatch : DataRouterDispatch F) (router : DataRouter F)
      {o : Outcome F}
      → handle c f now origin dispatch router ≡ some o
      → IsValid c router
      → IsValid c o.0 × All (IsAuthentic c (entries dispatch)) o.1
  handle-IsAuthentic now origin dispatch router h =
      handle_induct c f (Keeps c (entries dispatch)) (Keeps-IsFrame c (entries dispatch)) now origin
        dispatch router (route_verified-Keeps c (entries dispatch) now)
        (λ msg hash r info d at newer verified v.
          let (same, key) = v hash info at in
          let (digest, signed) =
            verify_refresh-IsSigned c msg info.owner_pub_key info.original_payload verified in
          (
            set_info-IsValid c hash (renewed now msg.sequence_number info) r (same, key) v,
            ((info.original_payload, info.owner_pub_key, msg.signature, same, key, signed), tt),
          ))
        h

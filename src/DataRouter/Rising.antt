-- ===== src/DataRouter/Rising.antt =====
-- The order of sequence numbers, for the whole handler of src/daemon/data_router.rs.
use risq.Base.{ℕ, ◌≡◌, refl, some, [], ◌∷◌, arith}
use risq.F64.{F64}
use risq.Hash.{sequenced_eq, persistent_eq}
use risq.Payload.Message.{refresh_offer_message}
use risq.OfferBook
use risq.P2p.Status.{ConnectionId}
use risq.OfferBook.{Command, add_offer, remove_offer, refresh_offer, check_ttl}
use risq.Payload.{Crypto}
use risq.DataRouter.State.{
  DataRouter, handle_command_result, Outcome, to_offer_book, renewed, DataRouterDispatch,
}
use risq.DataRouter.{handle}
use risq.DataRouter.Order.{
  Rising, known, Continues, Continues-same, Continues-append, set_info-Rising, Above-none,
}
use risq.DataRouter.Frame.{IsFrame}
use risq.DataRouter.Induct.{handle_induct}
use risq.DataRouter.Keeps.{route_verified-Continues}

module _ {F : Type 0} where
  Continues-IsFrame : IsFrame {F = F} Continues
  unfolding Rising
  Continues-IsFrame = record {
    same = λ router ids. Continues-same router;
    append = Continues-append;
    stats = λ router ids t handler h. (Above-none (known h router), Continues-same router h);
    boot = λ router ts h. (Above-none (known h router), Continues-same router h);
  }

module _ {F K : Type 0} (c : Crypto F K) (f : F64 F) where
  -- For each hash, the messages that a handler sends to the offer book have rising sequence
  -- numbers, above the one that the router knew and up to the one that it knows then; whatever is
  -- received, where the handler does not panic.
  pub handle-Continues :
      (now : ℕ) (origin : ConnectionId) (dispatch : DataRouterDispatch F) (router : DataRouter F)
      {o : Outcome F}
      → handle c f now origin dispatch router ≡ some o
      → Continues router o
  handle-Continues now origin dispatch router h =
      handle_induct c f Continues Continues-IsFrame now origin dispatch router
        (λ removing entry handler hash payload r m v e.
          route_verified-Continues c now removing entry handler hash payload r)
        (λ msg hash r info d at newer verified i.
          set_info-Rising i hash msg.sequence_number (renewed now msg.sequence_number info) r
            (to_offer_book (OfferBook.refresh_offer hash msg.sequence_number)
                (handle_command_result origin (refresh_offer_message msg))
              ∷ [])
            refl (rw at (ground (arith, newer))) refl)
        h

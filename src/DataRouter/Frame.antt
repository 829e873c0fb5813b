-- ===== src/DataRouter/Frame.antt =====
-- The entries that a message to the router of src/daemon/data_router.rs holds, and what a property
-- must satisfy to be proved of its handler part by part.
use mathlib.Core.List.{Mem, mem-cons_self, mem-append_left, mem-append_right}
use risq.Base.{ℕ, ◌≡◌, refl, Bool, false, Option, none, some, List, [], ◌∷◌, ◌++◌}
use risq.Hash.{SequencedMessageHash, PersistentMessageHash, sequenced_eq, persistent_eq}
use risq.Payload.Types.{StoragePayload, ProtectedStorageEntry, StorageEntryWrapper}
use risq.Payload.{Crypto, verify_entry}
use risq.Statistics.Trade.{Trade}
use risq.DataRouter.State.{
  DataRouter, SequencedMessageInfo, Sent, ResultHandler, ignore_command_result,
  handle_command_result, Outcome, to_offer_book, to_stats_cache, to_stats_bootstrap, set_info,
  should_deliver_sequenced, new_info, renewed, DataRouterDispatch, bootstrap, add_data, remove_data,
  add_persistable_network_payload,
}
use risq.DataRouter.State
use risq.DataRouter.Storage.{
  route_verified, route_hashed, route_protected_storage_entry, route_storage_entry_wrapper,
  route_data, unwrapped,
}

abbrev pub optional : {A : Type 0} → Option A → List A
optional none = []
optional (some a) = a ∷ []

module _ {F : Type 0} where
  abbrev wrapped_entries : List (StorageEntryWrapper F) → List (ProtectedStorageEntry F)
  wrapped_entries [] = []
  wrapped_entries (w ∷ ws) = optional (unwrapped (some w)) ++ wrapped_entries ws

  -- The entries that a message holds.
  abbrev pub entries : DataRouterDispatch F → List (ProtectedStorageEntry F)
  entries (bootstrap data_set payloads) = wrapped_entries data_set
  entries (State.refresh_offer msg) = []
  entries (add_data msg) = optional (unwrapped msg.entry)
  entries (remove_data msg) = optional msg.protected_storage_entry
  entries (add_persistable_network_payload msg) = []

  pub record IsFrame (P : DataRouter F → Outcome F → Type 0) : Type 0 where
    pub same :
        (router : DataRouter F) (ids : List PersistentMessageHash)
        → P router (record router { persistent_message_info = ids }, [])
    pub append :
        (r r' r'' : DataRouter F) (out more : List (Sent F))
        → P r (r', out)
        → P r' (r'', more)
        → P r (r'', out ++ more)
    pub stats :
        (router : DataRouter F) (ids : List PersistentMessageHash) (t : Trade)
        (handler : ResultHandler F)
        → P router (record router { persistent_message_info = ids }, to_stats_cache t handler ∷ [])
    pub boot :
        (router : DataRouter F) (ts : List Trade) → P router (router, to_stats_bootstrap ts ∷ [])

module _ {F K : Type 0} (c : Crypto F K) (P : DataRouter F → Outcome F → Type 0)
    (frame : IsFrame P) where
  pub same_router : (router : DataRouter F) → P router (router, [])
  same_router router = frame.same router router.persistent_message_info

  -- What is asked of an entry that is verified, where it is one of `es`.
  abbrev pub OnEntry : ℕ → List (ProtectedStorageEntry F) → Type 0
  OnEntry now es =
      (removing : Bool) (entry : ProtectedStorageEntry F) (handler : ResultHandler F)
      (hash : SequencedMessageHash) (payload : StoragePayload F) (router : DataRouter F)
      → Mem entry es
      → verify_entry c entry ≡ some hash
      → entry.storage_payload ≡ some payload
      → P router (route_verified c now removing entry handler hash payload router)

  pub entry_induct :
      (now : ℕ) (removing : Bool) (entry : Option (ProtectedStorageEntry F))
      (handler : ResultHandler F) (router : DataRouter F)
      → OnEntry now (optional entry)
      → P router (route_protected_storage_entry c now removing entry handler router)
  unfolding route_protected_storage_entry
  entry_induct now removing none handler router on_entry = same_router router
  entry_induct now removing (some entry) handler router on_entry =
      go (verify_entry c entry) entry.storage_payload refl refl
    where
      go :
          (hash : Option SequencedMessageHash) (payload : Option (StoragePayload F))
          → verify_entry c entry ≡ hash
          → entry.storage_payload ≡ payload
          → P router (route_hashed c now removing entry handler hash payload router)
      go (some hash) (some payload) e e' =
          on_entry removing entry handler hash payload router mem-cons_self e e'
      go (some hash) none e e' = same_router router
      go none payload e e' = same_router router

  pub data_induct :
      (now : ℕ) (ws : List (StorageEntryWrapper F)) (router : DataRouter F)
      → OnEntry now (wrapped_entries ws)
      → P router (route_data c now ws router)
  unfolding route_data route_storage_entry_wrapper
  data_induct now [] router on_entry = same_router router
  data_induct now (w ∷ ws) router on_entry =
      let first = route_storage_entry_wrapper c now (some w) ignore_command_result router in
      let rest = route_data c now ws first.0 in
      frame.append router first.0 rest.0 first.1 rest.1
        (entry_induct now false (unwrapped (some w)) ignore_command_result router
          (λ removing entry handler hash payload r m.
            on_entry removing entry handler hash payload r
              (mem-append_left (wrapped_entries ws) m)))
        (data_induct now ws first.0 (λ removing entry handler hash payload r m.
          on_entry removing entry handler hash payload r
            (mem-append_right (optional (unwrapped (some w))) m)))

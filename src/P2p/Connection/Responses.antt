-- ===== src/P2p/Connection/Responses.antt =====
-- Which request a response reaches in src/p2p/connection.rs.
use risq.Base.{
  ℕ, ◌≡◌, ◌≢◌, refl, sym, ap, ◌∙◌, Bool, true, Option, none, some, none-absurd, List, [], ◌∷◌, All,
  >>=-eq-some, some-injective, ◌==◌, beq→eq, beq_refl, Option-cases, Bool-cases, inl, inr,
}
use risq.Base.HashMap.{get, insert, get-insert, get-remove, get-insert_self}
use risq.Payload.Message.{NetworkMessage}
use risq.Correlation.{
  CorrelationId, correlation_id, correlation_eq, Request, request_message, extract_response,
  preliminary_get_data, get_updated_data, get_peers, ping_peer, of_i32,
}
use risq.P2p.Connection.{
  Connection, Channel, Input, received, requested, posted, handle_message, handle_request,
  handle_payload, on_input, run_inputs, channel_of, without_channel, respond, dispatch_message,
}

module _ {F : Type 0} where
  -- The request's own id
  abbrev pub nonce_of : Request F → CorrelationId
  nonce_of (preliminary_get_data nonce rest) = of_i32 nonce
  nonce_of (get_updated_data nonce rest) = of_i32 nonce
  nonce_of (get_peers nonce rest) = of_i32 nonce
  nonce_of (ping_peer ping) = of_i32 ping.nonce

  correlation_id-request_message :
      (request : Request F) → correlation_id (request_message request) ≡ some (nonce_of request)
  unfolding correlation_id request_message
  correlation_id-request_message (preliminary_get_data nonce rest) = refl
  correlation_id-request_message (get_updated_data nonce rest) = refl
  correlation_id-request_message (get_peers nonce rest) = refl
  correlation_id-request_message (ping_peer ping) = refl

  -- The id is not that of the message, or of the request.
  abbrev pub IsOther : CorrelationId → Input F → Type 0
  IsOther id (received msg) = correlation_id msg ≢ some id
  IsOther id (requested number request) = nonce_of request ≢ id
  IsOther id (posted msg) = Unit

  without_channel-get :
      (id : CorrelationId) (o : Option CorrelationId) (conn : Connection F)
      → o ≢ some id
      → get id (without_channel o conn).response_channels ≡ get id conn.response_channels
  without_channel-get id none conn other = refl
  without_channel-get id (some j) conn other = elim (Bool-cases (j == id)) [
    | inl same ↦ absurd (other (ap some (beq→eq j id same)))
    | inr differ ↦ get-remove j id conn.response_channels ∙ rw differ refl
  ]

  module _ (listening : ℕ → Bool) (id : CorrelationId) where
    handle_message-get :
        (msg : NetworkMessage F) (conn : Connection F) {conn' : Connection F}
        → correlation_id msg ≢ some id
        → handle_message listening msg conn ≡ some conn'
        → get id conn'.response_channels ≡ get id conn.response_channels
    unfolding handle_message
    handle_message-get msg conn {conn'} other h =
        let o = correlation_id msg in
        let same : get id (without_channel o conn).response_channels
            ≡ get id conn.response_channels =
          without_channel-get id o conn other in
        elim (Option-cases (channel_of o conn)) [
          | inl e ↦
              ap (λ c. get id c.response_channels)
                (sym (some-injective (rw (e, handle_message) at h)))
          | inr (channel, e) ↦ elim (Bool-cases (listening channel.number)) [
            | inl on ↦
                ap (λ c. get id c.response_channels)
                  (sym (some-injective (rw (e, on, handle_message) at h)))
                ∙ same
            | inr off ↦ none-absurd (rw (e, off, handle_message) at h)
          ]
        ]

    handle_request-get :
        (number : ℕ) (request : Request F) (conn : Connection F) {conn' : Connection F}
        → nonce_of request ≢ id
        → handle_request number request conn ≡ some conn'
        → get id conn'.response_channels ≡ get id conn.response_channels
    unfolding handle_request
    handle_request-get number request conn {conn'} other h =
        let j = nonce_of request in
        let done = some-injective (rw (correlation_id-request_message request) at h) in
        elim (Bool-cases (j == id)) [
          | inl same ↦ absurd (other (beq→eq j id same))
          | inr differ ↦
              ap (λ c. get id c.response_channels) (sym done)
              ∙ get-insert j id (record { number = number; request = request })
                  conn.response_channels
              ∙ rw differ refl
        ]

    on_input-get :
        (input : Input F) (conn : Connection F) {conn' : Connection F}
        → IsOther id input
        → on_input listening input conn ≡ some conn'
        → get id conn'.response_channels ≡ get id conn.response_channels
    unfolding on_input
    on_input-get (received msg) conn other h = handle_message-get msg conn other h
    on_input-get (requested number request) conn other h =
        handle_request-get number request conn other h
    on_input-get (posted msg) conn other h =
        ap (λ c. get id c.response_channels) (sym (some-injective h))

    run_inputs-get :
        (inputs : List (Input F)) (conn : Connection F) {conn' : Connection F}
        → All (IsOther id) inputs
        → run_inputs listening inputs conn ≡ some conn'
        → get id conn'.response_channels ≡ get id conn.response_channels
    unfolding run_inputs
    run_inputs-get [] conn other h = ap (λ c. get id c.response_channels) (sym (some-injective h))
    run_inputs-get (input ∷ inputs) conn other h =
        let (next, h1, h2) = >>=-eq-some (on_input listening input conn) _ h in
        run_inputs-get inputs next other.1 h2 ∙ on_input-get input conn other.0 h1

  -- A request is written to the socket and waits under its nonce; a request never panics.
  pub handle_request_waits :
      (number : ℕ) (request : Request F) (conn : Connection F)
      → (conn' : Connection F) × (handle_request number request conn ≡ some conn')
        × (get (nonce_of request) conn'.response_channels
            ≡ some (record { number = number; request = request }))
        × (conn'.written ≡ request_message request ∷ conn.written)
  unfolding handle_request
  handle_request_waits number request conn =
      let channel : Channel F = record { number = number; request = request } in
      (
        handle_payload (request_message request) (record conn {
          response_channels = insert (nonce_of request) channel conn.response_channels;
        }),
        rw (correlation_id-request_message request) refl,
        get-insert_self (nonce_of request) channel conn.response_channels,
        refl,
      )

  -- After a request and any inputs of other ids, in whatever order and without a panic, a message
  -- that has the request's nonce is the response of just that request: if it still listens, its
  -- future gets what it extracts from the message, the message is not dispatched, and the channel
  -- is gone.
  pub response_reaches :
      (listening : ℕ → Bool) (number : ℕ) (request : Request F) (inputs : List (Input F))
      (msg : NetworkMessage F) (conn : Connection F) {after before : Connection F}
      → handle_request number request conn ≡ some after
      → All (IsOther (nonce_of request)) inputs
      → run_inputs listening inputs after ≡ some before
      → correlation_id msg ≡ some (nonce_of request)
      → listening number ≡ true
      → (done : Connection F) × (handle_message listening msg before ≡ some done)
        × (done.responses ≡ (number, extract_response request msg) ∷ before.responses)
        × (done.dispatched ≡ before.dispatched)
        × (get (nonce_of request) done.response_channels ≡ none)
  unfolding handle_message
  response_reaches listening number request inputs msg conn {after} {before} h other run id on =
      let (waiting, made, found, written) = handle_request_waits number request conn in
      let channel : Channel F = record { number = number; request = request } in
      let same : waiting ≡ after = some-injective (sym made ∙ h) in
      let at : get (nonce_of request) before.response_channels ≡ some channel =
        run_inputs-get listening (nonce_of request) inputs after other run
        ∙ ap (λ c. get (nonce_of request) c.response_channels) (sym same)
        ∙ found in
      (
        respond channel msg (without_channel (some (nonce_of request)) before),
        rw (id, at, on, handle_message)
            (ap (λ o. some (respond channel msg (without_channel o before))) id),
        refl,
        refl,
        get-remove (nonce_of request) (nonce_of request) before.response_channels
            ∙ rw (beq_refl (nonce_of request)) refl,
      )

  -- A message without an id, or with one that no request waits for, is dispatched and changes
  -- nothing else.
  pub unsolicited_dispatched :
      (listening : ℕ → Bool) (msg : NetworkMessage F) (conn : Connection F)
      → channel_of (correlation_id msg) conn ≡ none
      → handle_message listening msg conn ≡ some (dispatch_message msg conn)
  unfolding handle_message
  unsolicited_dispatched listening msg conn h = rw (h, handle_message) refl

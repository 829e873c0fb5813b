-- ===== src/P2p/Peers/Panics.antt =====
-- When the actor of src/p2p/peers.rs panics.
use mathlib.Core.Bool.{false≢true}
use risq.Base.{
  ℕ, ◌⊎◌, ◌≡◌, refl, sym, ◌∙◌, Bool, false, Option, none, some, List, [], ◌∷◌, arith, nat_eq,
  Option-cases, inl, inr,
}
use risq.Base.Int.{ℤ}
use risq.Base.HashMap.{get, contains_key, contains_key-insert, get_contained, get_missing}
use risq.Capability.{close_requested_by_peer}
use risq.P2p.Status.{or_else, ConnectionId, NodeAddress, connection_identified, connection_alive}
use risq.P2p.Peers.{
  seed_connection, incoming_connection, opened, get_peers_request, close_connection, server_started,
  timer, alive_times, consolidated, request_peers, get_peers_response, reply, Peers, Peer, Address,
  Event, step, run, consolidate, update_alive_times, alive_one, identified_by, update_peer_info,
  add_to_peer_infos, handle_get_peers, request_peers_from, peers_received, respond,
}
use risq.P2p.Peers.Invariant.{
  IsValid, Succeeds, Fails, SameMaps-IsValid, SameMaps-trans, update-SameMaps, add_infos-SameMaps,
  ask-SameMaps, reported-SameMaps, add-IsValid, drop-IsValid, remove_each-IsValid,
  do_consolidate-IsValid,
}

-- A known connection is in the status.
alive_one-Succeeds :
    (id : ConnectionId) (at : ℕ) (o : Option NodeAddress) (p : Peers)
    → get id p.identified_connections ≡ o
    → IsValid p
    → Succeeds (alive_one id at o p)
unfolding connection_alive
alive_one-Succeeds id at none p e v = v
alive_one-Succeeds id at (some a) p e v =
    let open_now = v.known id (get_contained id a p.identified_connections e) in
    elim (Option-cases (get id p.status)) [
      | inl missing ↦
          absurd (false≢true (sym (get_missing id p.status missing) ∙ v.same id ∙ open_now))
      | inr (s, found) ↦
          rw (found, alive_one, Succeeds)
            (SameMaps-IsValid _ _ (update-SameMaps a at none none _) (record {
              same = λ j. ground (
                arith,
                v.same j,
                v.same id,
                open_now,
                nat_eq.beq_iff id j,
                contains_key-insert id j (record s { alive_at = at }) p.status,
              );
              known = v.known;
            }))
    ]

alive-Succeeds :
    (times : List (ConnectionId × ℕ)) (p : Peers)
    → IsValid p
    → Succeeds (update_alive_times times p)
unfolding update_alive_times
alive-Succeeds [] p v = v
alive-Succeeds ((id, at) ∷ times) p v =
    continue (λ next h. alive-Succeeds times next h)
      (alive_one id at (get id p.identified_connections) p)
      (alive_one-Succeeds id at (get id p.identified_connections) p refl v)
  where
    continue :
        ((next : Peers) → IsValid next → Succeeds (update_alive_times times next))
        → (o : Option Peers) → Succeeds o
        → Succeeds (elim o [ none ↦ none | some next ↦ update_alive_times times next ])
    continue rest none h = absurd h
    continue rest (some next) h = rest next h

-- The two panics: a request for peers that names its sender, on a connection that is not open any
-- more; and new connections to be opened, where an address does not resolve.
abbrev pub Panics : (NodeAddress → Bool) → Event → Peers → Type 0
Panics resolves (get_peers_request id (some a) cs reported) p =
    contains_key id p.connections ≡ false
Panics resolves consolidated p = Fails resolves p
Panics resolves _ p = ⊥

abbrev pub Outcome : (NodeAddress → Bool) → Event → Peers → Option Peers → Type 0
Outcome resolves e p o = (Panics resolves e p × (o ≡ none)) ⊎ (¬ Panics resolves e p) × Succeeds o

identified-Outcome :
    (now : ℕ) (id : ConnectionId) (a : NodeAddress) (cs : List ℤ) (p : Peers)
    → IsValid p
    → (contains_key id p.connections ≡ false) × (identified_by now id (some a) cs p ≡ none)
      ⊎ (¬ (contains_key id p.connections ≡ false)) × Succeeds (identified_by now id (some a) cs p)
unfolding connection_identified update_peer_info
identified-Outcome now id a cs p v = elim (Option-cases (get id p.status)) [
  | inl missing ↦
      inl (sym (v.same id) ∙ get_missing id p.status missing, rw (missing, identified_by) refl)
  | inr (s, found) ↦
      let open_now = sym (v.same id) ∙ get_contained id s p.status found in
      inr (
        (λ gone. false≢true (sym gone ∙ open_now)),
        rw (found, identified_by, Succeeds)
            (record {
              same = λ j. ground (
                arith,
                v.same j,
                v.same id,
                open_now,
                nat_eq.beq_iff id j,
                contains_key-insert id j (record { addr = or_else s.addr (some a); alive_at = now })
                    p.status,
              );
              known = λ j h. ground (
                arith,
                v.known j,
                h,
                open_now,
                nat_eq.beq_iff id j,
                contains_key-insert id j a p.identified_connections,
              );
            }),
      )
]

infos-get_peers :
    (resolves : NodeAddress → Bool) (now : ℕ) (id : ConnectionId) (o : Option NodeAddress)
    (cs : List ℤ) (reported : List Peer) (p : Peers)
    → IsValid p
    → Outcome resolves
        (get_peers_request id o cs reported)
        p
        (handle_get_peers now id o cs reported p)
unfolding handle_get_peers add_to_peer_infos
infos-get_peers resolves now id none cs reported p v =
    inr ((λ never. never), SameMaps-IsValid _ _ (add_infos-SameMaps reported p) v)
infos-get_peers resolves now id (some a) cs reported p v =
    let same = add_infos-SameMaps reported p in
    rw same.same_connections at
      (identified-Outcome now id a cs (add_to_peer_infos reported p) (SameMaps-IsValid _ _ same v))

-- Every step of a well-formed actor keeps it well-formed and does not panic, but for two, which
-- panic always: a request for peers that names its sender, on a connection that is not open any
-- more; and the opening of new connections, where fewer of them than wanted are identified and one
-- of the addresses taken does not resolve.
pub step-Outcome :
    (now : ℕ) (connected : Address → Bool) (resolves : NodeAddress → Bool) (e : Event) (p : Peers)
    → IsValid p
    → Outcome resolves e p (step now connected resolves e p)
unfolding step consolidate request_peers_from peers_received respond
step-Outcome now connected resolves (seed_connection a id conn) p v = inr (
  (λ never. never),
  remove_each-IsValid connected _ _ (
      add-IsValid now id conn (some a) _ (
        SameMaps-IsValid p _
          (record { same_connections = refl; same_identified = refl; same_status = refl }) v)),
)
step-Outcome now connected resolves (incoming_connection id conn) p v =
    inr ((λ never. never), add-IsValid now id conn none p v)
step-Outcome now connected resolves (opened a id conn) p v = inr (
  (λ never. never),
  SameMaps-IsValid _ _ (ask-SameMaps _ id _) (add-IsValid now id conn (some a) p v),
)
step-Outcome now connected resolves (get_peers_request id o cs reported) p v =
    infos-get_peers resolves now id o cs reported p v
step-Outcome now connected resolves (close_connection id) p v =
    inr ((λ never. never), drop-IsValid connected id close_requested_by_peer p v)
step-Outcome now connected resolves (server_started a) p v = inr (
  (λ never. never),
  SameMaps-IsValid p _
      (record { same_connections = refl; same_identified = refl; same_status = refl }) v,
)
step-Outcome now connected resolves timer p v =
    inr ((λ never. never), remove_each-IsValid connected _ p v)
step-Outcome now connected resolves (alive_times times) p v =
    inr ((λ never. never), alive-Succeeds times p v)
step-Outcome now connected resolves consolidated p v = do_consolidate-IsValid connected resolves p v
step-Outcome now connected resolves (request_peers id) p v =
    inr ((λ never. never), SameMaps-IsValid _ _ (ask-SameMaps _ id p) v)
step-Outcome now connected resolves (get_peers_response id cs reported) p v = inr (
  (λ never. never),
  SameMaps-IsValid _ _
      (SameMaps-trans _ _ _ (reported-SameMaps now cs _ p) (add_infos-SameMaps reported _)) v,
)
step-Outcome now connected resolves (reply conn id nonce) p v = inr (
  (λ never. never),
  SameMaps-IsValid p _
      (record { same_connections = refl; same_identified = refl; same_status = refl }) v,
)

-- What holds as long as the actor has not panicked.
abbrev pub Lasting : Option Peers → Type 0
Lasting none = Unit
Lasting (some p) = IsValid p

-- Whatever happens to a well-formed actor, it is well-formed as long as it has not panicked.
pub run-Lasting :
    (es : List (ℕ × (Address → Bool) × (NodeAddress → Bool) × Event)) (p : Peers)
    → IsValid p
    → Lasting (run es p)
unfolding run
run-Lasting [] p v = v
run-Lasting ((now, connected, resolves, e) ∷ es) p v =
    go (λ next h. run-Lasting es next h) (step now connected resolves e p)
      (step-Outcome now connected resolves e p v)
  where
    go :
        ((next : Peers) → IsValid next → Lasting (run es next))
        → (o : Option Peers) → Outcome resolves e p o
        → Lasting (elim o [ none ↦ none | some next ↦ run es next ])
    go rest none h = tt
    go rest (some next) (inl h) = cc
    go rest (some next) (inr h) = rest next h.1

-- ===== src/P2p/Peers/Invariant.antt =====
-- The three maps of the actor of src/p2p/peers.rs, and its steps.
use risq.Base.{
  ℕ, ◌<◌, ◌⊎◌, false, all, ltb→lt, ltb→le, ltb, length, ◌≡◌, refl, ◌∙◌, Bool, true, Option, none,
  some, List, [], ◌∷◌, arith, nat_eq, inl, inr, Bool-cases,
}
use risq.Base.Int.{ℤ}
use risq.Base.HashMap.{get, contains_key, contains_key-insert, contains_key-remove}
use risq.Capability.{CloseConnectionReason, unknown_peer_address, too_many_connections_open}
use risq.P2p.Status.{ConnectionId, NodeAddress, connection_added, connection_removed}
use risq.P2p.Peers.{
  min_connections, max_connections, Peers, Peer, Address, start, add_connection, drop_connection,
  remove_one, remove_each, add_peer_info, reported_by, ask, drop_each, to_open, do_consolidate,
  update_peer_info, add_to_peer_infos,
}

-- The status has just the connections that are open, and the identified ones are among them.
pub record IsValid (peers : Peers) : Type 0 where
  pub same : (j : ConnectionId) → contains_key j peers.status ≡ contains_key j peers.connections
  pub known :
      (j : ConnectionId)
      → contains_key j peers.identified_connections ≡ true
      → contains_key j peers.connections ≡ true

-- A change that leaves the three maps alone.
pub record SameMaps (p q : Peers) : Type 0 where
  pub same_connections : q.connections ≡ p.connections
  pub same_identified : q.identified_connections ≡ p.identified_connections
  pub same_status : q.status ≡ p.status

pub SameMaps-IsValid : (p q : Peers) → SameMaps p q → IsValid p → IsValid q
SameMaps-IsValid p q s v = record {
  same = λ j. rw (s.same_status, s.same_connections) (v.same j);
  known = λ j h. rw s.same_connections (v.known j (rw s.same_identified at h));
}

pub SameMaps-refl : (p : Peers) → SameMaps p p
SameMaps-refl p = record { same_connections = refl; same_identified = refl; same_status = refl }

pub SameMaps-trans : (p q r : Peers) → SameMaps p q → SameMaps q r → SameMaps p r
SameMaps-trans p q r s t = record {
  same_connections = t.same_connections ∙ s.same_connections;
  same_identified = t.same_identified ∙ s.same_identified;
  same_status = t.same_status ∙ s.same_status;
}

pub update-SameMaps :
    (addr : NodeAddress) (at : ℕ) (g r : Option (List ℤ)) (p : Peers)
    → SameMaps p (update_peer_info addr at g r p)
unfolding update_peer_info
update-SameMaps addr at g r p = record {
  same_connections = refl;
  same_identified = refl;
  same_status = refl;
}

add_one-SameMaps :
    (addr : Option NodeAddress) (date : ℤ) (cs : List ℤ) (p : Peers)
    → SameMaps p (add_peer_info addr date cs p)
add_one-SameMaps none date cs p = SameMaps-refl p
add_one-SameMaps (some a) date cs p = update-SameMaps a _ (some cs) none p

pub add_infos-SameMaps :
    (reported : List Peer) (p : Peers) → SameMaps p (add_to_peer_infos reported p)
unfolding add_to_peer_infos
add_infos-SameMaps [] p = SameMaps-refl p
add_infos-SameMaps (q ∷ rest) p =
    SameMaps-trans _ _ _ (add_one-SameMaps q.node_address q.date q.supported_capabilities p)
      (add_infos-SameMaps rest _)

pub start-IsValid : IsValid start
unfolding contains_key get
start-IsValid = record { same = λ j. refl; known = λ j h. h }

pub drop-IsValid :
    (connected : Address → Bool) (id : ConnectionId) (reason : CloseConnectionReason) (p : Peers)
    → IsValid p
    → IsValid (drop_connection connected id reason p)
unfolding drop_connection connection_removed
drop-IsValid connected id reason p v = record {
  same = λ j.
      ground (
        arith,
        v.same j,
        contains_key-remove id j p.status,
        contains_key-remove id j p.connections,
      );
  known = λ j h. ground (
    arith,
    v.known j,
    h,
    contains_key-remove id j p.identified_connections,
    contains_key-remove id j p.connections,
  );
}

pub add-IsValid :
    (now : ℕ) (id : ConnectionId) (conn : Address) (addr : Option NodeAddress) (p : Peers)
    → IsValid p
    → IsValid (add_connection now id conn addr p)
unfolding add_connection connection_added update_peer_info
add-IsValid now id conn none p v = record {
  same = λ j. ground (
    arith,
    v.same j,
    contains_key-insert id j (record { addr = none; alive_at = now }) p.status,
    contains_key-insert id j conn p.connections,
  );
  known = λ j h. ground (arith, v.known j, h, contains_key-insert id j conn p.connections);
}
add-IsValid now id conn (some a) p v = record {
  same = λ j. ground (
    arith,
    v.same j,
    contains_key-insert id j (record { addr = some a; alive_at = now }) p.status,
    contains_key-insert id j conn p.connections,
  );
  known = λ j h. ground (
    arith,
    v.known j,
    h,
    contains_key-insert id j conn p.connections,
    contains_key-insert id j a p.identified_connections,
  );
}

remove_one-IsValid :
    (connected : Address → Bool) (id : ConnectionId) (p : Peers)
    → IsValid p
    → IsValid (remove_one connected id p)
unfolding remove_one connection_removed
remove_one-IsValid connected id p v = elim (Bool-cases (contains_key id p.identified_connections)) [
  | inl there ↦ rw there (record {
    same = λ j. ground (
      arith,
      v.same j,
      contains_key-remove id j p.status,
      contains_key-remove id j p.connections,
    );
    known = λ j h. ground (
      arith,
      v.known j,
      h,
      contains_key-remove id j p.identified_connections,
      contains_key-remove id j p.connections,
    );
  })
  | inr missing ↦ rw missing (drop-IsValid connected id unknown_peer_address p v)
]

pub remove_each-IsValid :
    (connected : Address → Bool) (ids : List ConnectionId) (p : Peers)
    → IsValid p
    → IsValid (remove_each connected ids p)
unfolding remove_each
remove_each-IsValid connected [] p v = v
remove_each-IsValid connected (id ∷ ids) p v =
    remove_each-IsValid connected ids (remove_one connected id p)
      (remove_one-IsValid connected id p v)

drop_each-IsValid :
    (connected : Address → Bool) (ids : List ConnectionId) (p : Peers)
    → IsValid p
    → IsValid (drop_each connected ids p)
unfolding drop_each
drop_each-IsValid connected [] p v = v
drop_each-IsValid connected (id ∷ ids) p v =
    drop_each-IsValid connected ids _ (drop-IsValid connected id too_many_connections_open p v)

-- A step that does not panic, and leaves the actor well-formed.
abbrev pub Succeeds : Option Peers → Type 0
Succeeds none = ⊥
Succeeds (some p) = IsValid p

-- Fewer connections than wanted are identified, and an address that is to be opened does not
-- resolve.
abbrev pub Fails : (NodeAddress → Bool) → Peers → Type 0
Fails resolves p =
    (length p.identified_connections < min_connections) × (all resolves (to_open p) ≡ false)

pub do_consolidate-IsValid :
    (connected : Address → Bool) (resolves : NodeAddress → Bool) (p : Peers)
    → IsValid p
    → Fails resolves p × (do_consolidate connected resolves p ≡ none)
      ⊎ (¬ Fails resolves p) × Succeeds (do_consolidate connected resolves p)
unfolding do_consolidate
do_consolidate-IsValid connected resolves p v =
    elim (Bool-cases (ltb (length p.identified_connections) min_connections)) [
      | inl few ↦ rw few (elim (Bool-cases (all resolves (to_open p))) [
        | inl resolved ↦ rw resolved (
            inr (
              (λ fails. cc),
              SameMaps-IsValid p _
                  (record { same_connections = refl; same_identified = refl; same_status = refl })
                  v,
            ))
        | inr unresolved ↦ rw unresolved (inl ((ltb→lt _ _ few, refl), refl))
      ])
      | inr enough ↦
          let never : ¬ Fails resolves p =
            λ fails. let le = ltb→le _ _ enough in omega (arith, le, fails.0) in
          rw enough (elim (Bool-cases (ltb max_connections (length p.connections))) [
            | inl many ↦ rw many (inr (never, drop_each-IsValid connected _ p v))
            | inr well ↦ rw well (inr (never, v))
          ])
    ]

pub ask-SameMaps : (o : Option Address) (id : ConnectionId) (p : Peers) → SameMaps p (ask o id p)
ask-SameMaps none id p = SameMaps-refl p
ask-SameMaps (some c) id p = record {
  same_connections = refl;
  same_identified = refl;
  same_status = refl;
}

pub reported-SameMaps :
    (now : ℕ) (cs : List ℤ) (o : Option NodeAddress) (p : Peers)
    → SameMaps p (reported_by now cs o p)
reported-SameMaps now cs none p = SameMaps-refl p
reported-SameMaps now cs (some a) p = update-SameMaps a now none (some cs) p

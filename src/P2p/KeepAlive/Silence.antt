-- ===== src/P2p/KeepAlive/Silence.antt =====
-- What a round of the timer of src/p2p/peers/keep_alive.rs does to each connection.
use risq.Base.{
  ℕ, ◌≡◌, refl, ap, sym, ◌∙◌, Bool, true, false, not, ◌&&◌, Option, none, some, List, [], ◌∷◌,
  nat_eq, if◌then◌else◌, arith, Bool-cases, inl, inr, ◌==◌, beq→eq,
}
use risq.Base.Int.{ℤ}
use risq.Base.HashMap.{HashMap, get, Distinct, get-remove}
use risq.P2p.Status.{ConnectionId}
use risq.P2p.KeepAlive.{Info, Sent, should_ping, ping_peer, keep, forget, retain}

module _ {B : Type 0} {q : Bool} where
  kept_here :
      (p : Bool) (b : B) {o : Option B}
      → q ≡ true
      → o ≡ none
      → (if p && q then some b else o) ≡ (if p then some b else none)
  kept_here p b h e = ground (arith, h, e)

  kept_there : (p : Bool) (b : B) {o : Option B} → q ≡ false → (if p && q then some b else o) ≡ o
  kept_there p b h = ground (arith, h)

  left_here :
      (p : Bool) (o : Option B)
      → q ≡ true
      → (if not p && q then none else o) ≡ (if not p then none else o)
  left_here p o h = ground (arith, h)

  pub left_there : (p : Bool) (o : Option B) → q ≡ false → (if not p && q then none else o) ≡ o
  left_there p o h = ground (arith, h)

module _ {A : Type 0} (upgrade : A → Bool) (age : ℕ) (now : ConnectionId → ℕ)
    (nonce : ConnectionId → ℤ) where
  -- A connection that is found dead: the peer is to be pinged and its actor has ended.
  abbrev pub is_dead : ConnectionId → A → Option Info → Bool
  is_dead id conn info = should_ping age (now id) info && not (upgrade conn)

  abbrev pub if_alive : ConnectionId → Option Info → Option A → Option A
  if_alive id info none = none
  if_alive id info (some conn) = if is_dead id conn info then none else some conn

  abbrev pub unless_dead : ConnectionId → Option A → Option Info → Option Info
  unless_dead id none info = info
  unless_dead id (some conn) info = if is_dead id conn info then none else info

  ping_peer-keeps :
      (id : ConnectionId) (conn : A) (info : Option Info)
      → (ping_peer upgrade age now nonce id conn info).1 ≡ not (is_dead id conn info)
  unfolding ping_peer
  ping_peer-keeps id conn info = ground arith

  pub get-forget :
      (j id : ConnectionId) (stays : Bool) (infos : HashMap ConnectionId Info)
      → get j (forget upgrade age now nonce id stays infos)
        ≡ (if not stays && (id == j) then none else get j infos)
  get-forget j id stays infos = ground (arith, get-remove {V = Info} id j infos)

  get-keep :
      (j id : ConnectionId) (conn : A) (p : List (Sent A) × Bool)
      (r : HashMap ConnectionId A × List (Sent A))
      → get j (keep upgrade age now nonce id conn p r).0
        ≡ (if p.1 && (id == j) then some conn else get j r.0)
  unfolding get
  get-keep j id conn (out, true) r = refl
  get-keep j id conn (out, false) r = refl

  -- What a round makes of the entries of a connection.
  abbrev pub Kept : ConnectionId → Option A → Option Info → Option A → Option Info → Type 0
  Kept j conn info conn' info' = (conn' ≡ if_alive j info conn) × (info' ≡ unless_dead j conn info)

  step_here :
      (id : ConnectionId) (conn : A) (info : Option Info) (stays : Bool)
      → stays ≡ not (is_dead id conn info)
      → Kept id
          (some conn)
          info
          (if stays then some conn else none)
          (if not stays then none else info)
  step_here id conn info stays e = elim (Bool-cases (is_dead id conn info)) [
    | inl dead ↦ rw (e ∙ ap not dead) (rw dead (refl, refl))
    | inr alive ↦ rw (e ∙ ap not alive) (rw alive (refl, refl))
  ]

  pub get-retain :
      (j : ConnectionId) (m : HashMap ConnectionId A) (infos : HashMap ConnectionId Info)
      → Distinct m
      → Kept j
          (get j m)
          (get j infos)
          (get j (retain upgrade age now nonce m infos).0.0)
          (get j (retain upgrade age now nonce m infos).1)
  unfolding retain get
  get-retain j [] infos d = (refl, refl)
  get-retain j ((id, conn) ∷ m) infos d =
      let pinged = ping_peer upgrade age now nonce id conn (get id infos) in
      let infos2 = forget upgrade age now nonce id pinged.1 infos in
      let ih = get-retain j m infos2 d.1 in
      let rest = retain upgrade age now nonce m infos2 in
      let left : get j infos2 ≡ (if not pinged.1 && (id == j) then none else get j infos) =
        get-forget j id pinged.1 infos in
      elim (Bool-cases (id == j)) [
        | inl same ↦
            let at : id ≡ j = beq→eq id j same in
            let gone : get j m ≡ none = ap (λ i. get i m) (sym at) ∙ d.0 in
            let stays : pinged.1 ≡ not (is_dead j conn (get j infos)) =
              ping_peer-keeps id conn (get id infos)
              ∙ ap (λ i. not (is_dead i conn (get i infos))) at in
            let kept = step_here j conn (get j infos) pinged.1 stays in
            let entry =
              get-keep j id conn pinged rest.0
              ∙ kept_here pinged.1 conn same (ih.0 ∙ ap (if_alive j (get j infos2)) gone) in
            let info =
              ih.1
              ∙ ap (λ o. unless_dead j o (get j infos2)) gone
              ∙ left
              ∙ left_here pinged.1 (get j infos) same in
            rw same (entry ∙ kept.0, info ∙ kept.1)
        | inr other ↦
            let same_info : get j infos2 ≡ get j infos =
              left ∙ left_there pinged.1 (get j infos) other in
            let entry =
              get-keep j id conn pinged rest.0
              ∙ kept_there pinged.1 conn other
              ∙ ih.0
              ∙ ap (λ o. if_alive j o (get j m)) same_info in
            let info = ih.1 ∙ ap (unless_dead j (get j m)) same_info in rw other (entry, info)
      ]

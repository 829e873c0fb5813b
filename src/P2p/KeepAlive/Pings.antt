-- ===== src/P2p/KeepAlive/Pings.antt =====
-- Whom a round of the timer of src/p2p/peers/keep_alive.rs pings.
use mathlib.Core.List.{append_assoc}
use risq.Base.{
  ℕ, ◌+◌, ◌≤◌, ◌≡◌, refl, ap, ap₂, sym, ◌∙◌, Bool, true, false, Option, none, some, List, [], ◌∷◌,
  ◌++◌, nat_eq, arith, Bool-cases, inl, inr, ◌==◌, beq→eq, some-injective,
}
use risq.Base.Int.{ℤ}
use risq.Base.HashMap.{HashMap, get, Distinct}
use risq.P2p.Status.{ConnectionId}
use risq.P2p.KeepAlive.{
  Info, KeepAlive, Sent, request_ping, should_ping, is_silent, ping_of, ping_peer, keep, forget,
  retain, tick, loop_interval, last_activity_age,
}
use risq.P2p.KeepAlive.Silence.{get-forget, get-retain, left_there}

-- Whoever has been silent for an interval of the timer has been so for longer than the age.
pub silent_interval :
    (random now last_active : ℕ)
    → last_active + loop_interval random ≤ now
    → is_silent (last_activity_age random) now last_active ≡ true
silent_interval random now last_active h = ground arith

module _ {A : Type 0} (upgrade : A → Bool) (age : ℕ) (now : ConnectionId → ℕ)
    (nonce : ConnectionId → ℤ) where
  -- The pings of all entries, each after the info of its connection.
  abbrev pings : HashMap ConnectionId A → HashMap ConnectionId Info → List (Sent A)
  pings [] infos = []
  pings ((id, conn) ∷ m) infos =
      (ping_peer upgrade age now nonce id conn (get id infos)).0 ++ pings m infos

  -- The removal of the info of another connection.
  pings-forget :
      (id : ConnectionId) (stays : Bool) (m : HashMap ConnectionId A)
      (infos : HashMap ConnectionId Info)
      → get id m ≡ none
      → pings m (forget upgrade age now nonce id stays infos) ≡ pings m infos
  unfolding get
  pings-forget id stays [] infos h = refl
  pings-forget id stays ((i, conn) ∷ m) infos h =
      let other : (i == id) ≡ false = ground (arith, h) in
      let turned : (id == i) ≡ false = ground arith in
      let ih = pings-forget id stays m infos (ground (arith, h)) in
      let same =
        get-forget upgrade age now nonce i id stays infos ∙ left_there stays (get i infos) turned in
      ap₂ (λ o l. (ping_peer upgrade age now nonce i conn o).0 ++ l) same ih

  keep-sent :
      (id : ConnectionId) (conn : A) (p : List (Sent A) × Bool)
      (r : HashMap ConnectionId A × List (Sent A))
      → (keep upgrade age now nonce id conn p r).1 ≡ p.0 ++ r.1
  keep-sent id conn (out, true) r = refl
  keep-sent id conn (out, false) r = refl

  retain-sent :
      (m : HashMap ConnectionId A) (infos : HashMap ConnectionId Info)
      → Distinct m
      → (retain upgrade age now nonce m infos).0.1 ≡ pings m infos
  unfolding retain
  retain-sent [] infos d = refl
  retain-sent ((id, conn) ∷ m) infos d =
      let pinged = ping_peer upgrade age now nonce id conn (get id infos) in
      let infos2 = forget upgrade age now nonce id pinged.1 infos in
      keep-sent id conn pinged (retain upgrade age now nonce m infos2).0
      ∙ ap (λ l. pinged.0 ++ l) (retain-sent m infos2 d.1 ∙ pings-forget id pinged.1 m infos d.0)

  -- The ping of a connection stands among all.
  abbrev pub Holds : Sent A → List (Sent A) → Type 0
  Holds x l = (before : List (Sent A)) × (after : List (Sent A)) × (l ≡ before ++ (x ∷ after))

  ping_peer-pings :
      (id : ConnectionId) (conn : A) (info : Option Info)
      → should_ping age (now id) info ≡ true
      → upgrade conn ≡ true
      → (ping_peer upgrade age now nonce id conn info).0
        ≡ request_ping id conn (now id) (ping_of upgrade age now nonce id info) ∷ []
  unfolding ping_peer
  ping_peer-pings id conn info due alive = rw due (rw alive refl)

  pings-Holds :
      (j : ConnectionId) (conn : A) (m : HashMap ConnectionId A) (infos : HashMap ConnectionId Info)
      → get j m ≡ some conn
      → should_ping age (now j) (get j infos) ≡ true
      → upgrade conn ≡ true
      → Holds
          (request_ping j conn (now j) (ping_of upgrade age now nonce j (get j infos)))
          (pings m infos)
  unfolding get
  pings-Holds j conn [] infos h due alive = cc
  pings-Holds j conn ((id, other) ∷ m) infos h due alive =
      let here = ping_peer upgrade age now nonce id other (get id infos) in
      elim (Bool-cases (id == j)) [
        | inl same ↦
            let at : id ≡ j = beq→eq id j same in
            let its : other ≡ conn = some-injective (rw same at h) in
            let first =
              ap₂ (λ i o. (ping_peer upgrade age now nonce i o (get i infos)).0) at its
              ∙ ping_peer-pings j conn (get j infos) due alive in
            ([], pings m infos, ap (λ l. l ++ pings m infos) first)
        | inr apart ↦
            let (before, after, split) = pings-Holds j conn m infos (rw apart at h) due alive in
            let out = here.0 in
            (out ++ before, after, ap (λ l. out ++ l) split ∙ sym (append_assoc out before _))
      ]

-- What a round makes of a silent connection: it is pinged and stays, or is forgotten if its actor
-- has ended.
pub record IsNoticed {A : Type 0} (upgrade : A → Bool) (age : ℕ) (now : ConnectionId → ℕ)
    (nonce : ConnectionId → ℤ) (k : KeepAlive A) (j : ConnectionId) (conn : A) : Type 0 where
  pub pinged :
      upgrade conn ≡ true
      → Holds upgrade age now nonce
          (request_ping j conn (now j) (ping_of upgrade age now nonce j (get j k.infos)))
          (tick upgrade age now nonce k).1
  pub stays :
      upgrade conn ≡ true
      → (get j (tick upgrade age now nonce k).0.connections ≡ some conn)
        × (get j (tick upgrade age now nonce k).0.infos ≡ get j k.infos)
  pub forgotten :
      upgrade conn ≡ false
      → (get j (tick upgrade age now nonce k).0.connections ≡ none)
        × (get j (tick upgrade age now nonce k).0.infos ≡ none)

module _ {A : Type 0} (upgrade : A → Bool) (age : ℕ) (now : ConnectionId → ℕ)
    (nonce : ConnectionId → ℤ) where
  due-IsNoticed :
      (k : KeepAlive A) (j : ConnectionId) (conn : A)
      → Distinct k.connections
      → get j k.connections ≡ some conn
      → should_ping age (now j) (get j k.infos) ≡ true
      → IsNoticed upgrade age now nonce k j conn
  unfolding tick
  due-IsNoticed k j conn d there due =
      let kept = get-retain upgrade age now nonce j k.connections k.infos d in
      let sent = retain-sent upgrade age now nonce k.connections k.infos d in
      record {
        pinged = λ alive.
            let (before, after, split) =
              pings-Holds upgrade age now nonce j conn k.connections k.infos there due alive in
            (before, after, sent ∙ split);
        stays = λ alive. (
          kept.0 ∙ rw there (rw due (rw alive refl)),
          kept.1 ∙ rw there (rw due (rw alive refl)),
        );
        forgotten = λ ended. (
          kept.0 ∙ rw there (rw due (rw ended refl)),
          kept.1 ∙ rw there (rw due (rw ended refl)),
        );
      }

-- No activity is known, or the last one is an interval of the timer ago at least.
abbrev pub IsSilent : ℕ → ℕ → Option Info → Type 0
IsSilent random now none = Unit
IsSilent random now (some info) = info.last_active + loop_interval random ≤ now

should_ping-IsSilent :
    (random now : ℕ) (info : Option Info)
    → IsSilent random now info
    → should_ping (last_activity_age random) now info ≡ true
should_ping-IsSilent random now none silent = refl
should_ping-IsSilent random now (some info) silent =
    silent_interval random now info.last_active silent

-- A connection of which no sign of life is known, or none for an interval of the timer, does not
-- stay unnoticed: the next round pings its peer and keeps it, or forgets it where its actor has
-- ended.
pub tick-IsNoticed :
    {A : Type 0} (upgrade : A → Bool) (random : ℕ) (now : ConnectionId → ℕ)
    (nonce : ConnectionId → ℤ) (k : KeepAlive A) (j : ConnectionId) (conn : A)
    → Distinct k.connections
    → get j k.connections ≡ some conn
    → IsSilent random (now j) (get j k.infos)
    → IsNoticed upgrade (last_activity_age random) now nonce k j conn
tick-IsNoticed upgrade random now nonce k j conn d there silent =
    due-IsNoticed upgrade (last_activity_age random) now nonce k j conn d there
      (should_ping-IsSilent random (now j) (get j k.infos) silent)

-- ===== src/P2p/Tor/Onion.antt =====
-- What `add_v2_onion` of src/p2p/tor.rs makes of the reply of Tor, and which keys it saves.
use Prim.Native.String.{◌++◌}
use risq.Base.{
  ℕ, String, ◌≡◌, ◌≢◌, inl, inr, Bool-cases, nat_beq, beq→eq, ◌∙◌, ap, refl, subst, Bool, true,
  false, Option, none, some, List, [], ◌∷◌, All, arith, ◌==◌, string_eq,
}
use risq.Base as Base
use risq.Base.Text.{split, Lacks}
use risq.P2p.Tor.Line.{Outcome, done}
use risq.P2p.Tor.{
  Read, follow, TorControl, AddOnionConfig, OnionAddr, add_onion_command, add_v2_onion,
  send_command, read_lines, save_key, section_of, sections, foldl, onion_section,
}
use risq.P2p.Tor.Reply.{IsTrimmed, reply, read_lines-reply}
use risq.P2p.Tor.Sections.{
  IsSolid, IsSolid-IsTrimmed, IsSolid-append, split-join, assignment, section_of-assignment,
  section_of-padded,
}

not_empty : (key : String) → key ≢ "" → (key == "") ≡ false
not_empty key h = elim (Bool-cases (key == "")) [
  | inl same ↦ absurd (h (beq→eq key "" same))
  | inr other ↦ other
]

-- The reply of Tor to a new hidden service: its name and its key.
abbrev pub new_onion : String → String → List String
new_onion id key = assignment "ServiceID" id ∷ assignment "PrivateKey" key ∷ []

no_blank_in_id : IsSolid "ServiceID"
no_blank_in_id = ground arith

no_blank_in_key : IsSolid "PrivateKey"
no_blank_in_key = ground arith

no_blank_in_ok : IsSolid "OK"
no_blank_in_ok = ground arith

plain_id : Lacks b'=' "ServiceID"
plain_id = ground arith

plain_key : Lacks b'=' "PrivateKey"
plain_key = ground arith

ok_none : section_of "OK" ≡ none
unfolding split
ok_none = refl

found_onion :
    (id key : String)
    → IsSolid id
    → IsSolid key
    → Lacks b'=' id
    → {o : Option (String × String)} → section_of (assignment "PrivateKey" key) ≡ o
    → foldl
        (λ found section. onion_section found (section_of section))
        ("", "")
        (sections (Base.◌++◌ (new_onion id key) ("OK" ∷ [])))
      ≡ onion_section (id, "") o
found_onion id key h k no_eq {o} e =
    let step =
      λ (found : String × String) (section : String). onion_section found (section_of section) in
    let solid_id = IsSolid-append "ServiceID" (String.◌∷◌ "=" id) no_blank_in_id (refl, h) in
    let solid_key = IsSolid-append "PrivateKey" (String.◌∷◌ "=" key) no_blank_in_key (refl, k) in
    ap (foldl step ("", "")) (
      split-join (assignment "ServiceID" id) (assignment "PrivateKey" key ∷ "OK" ∷ [])
        (solid_id, (solid_key, (no_blank_in_ok, tt))))
    ∙ ap (λ a. step (step (onion_section ("", "") a) (assignment "PrivateKey" key)) "OK")
        (section_of-assignment "ServiceID" id plain_id no_eq)
    ∙ ap (λ a. step (onion_section (id, "") a) "OK") e
    ∙ ap (onion_section (onion_section (id, "") o)) ok_none

abbrev pub answered : AddOnionConfig → String → Outcome OnionAddr
answered conf id = done (record { port = conf.virtual_port; onion_service = id ++ ".onion" })

-- The state in which the command is written and the reply is read.
abbrev pub added : AddOnionConfig → TorControl → List Bool → List Read → TorControl
added conf tc ws rest = record tc {
  received = rest;
  writes = ws;
  sent = Base.◌++◌ tc.sent ((add_onion_command conf tc.key_file ++ "\r\n") ∷ []);
}

asks :
    (conf : AddOnionConfig) (tc : TorControl) (ws : List Bool)
    → tc.writes ≡ true ∷ ws
    → send_command (add_onion_command conf tc.key_file) tc ≡ (done tt, added conf tc ws tc.received)
unfolding send_command
asks conf tc ws e = rw e refl

saved :
    (key : String) (tc : TorControl)
    → key ≢ ""
    → tc.key_create ≡ true
    → tc.key_write ≡ true
    → save_key key tc ≡ (done tt, record tc { key_file = some key })
unfolding save_key
saved key tc h e e' = rw (not_empty key h, e, e') refl

solid_line :
    (name value : String) → IsSolid name → IsSolid value → IsTrimmed (assignment name value)
solid_line name value h k =
    IsSolid-IsTrimmed (assignment name value)
      (IsSolid-append name (String.◌∷◌ "=" value) h (refl, k))

onion_reply :
    (id key : String)
    → IsSolid id
    → IsSolid key
    → (tc : TorControl) (rest : List Read)
    → tc.received ≡ Base.◌++◌ (reply (new_onion id key) "OK") rest
    → read_lines tc
      ≡ (done (Base.◌++◌ (new_onion id key) ("OK" ∷ [])), record tc { received = rest })
onion_reply id key h k tc rest e =
    read_lines-reply tc (new_onion id key) "OK" rest e
      (
        solid_line "ServiceID" id no_blank_in_id h,
        (solid_line "PrivateKey" key no_blank_in_key k, tt),
      )
      (IsSolid-IsTrimmed "OK" no_blank_in_ok)

-- The whole of `add_v2_onion` up to the saving of the key that is found.
add_v2_onion-found :
    (conf : AddOnionConfig) (tc : TorControl) (ws : List Bool) (rest : List Read) (id key : String)
    {o : Option (String × String)}
    → IsSolid id
    → IsSolid key
    → Lacks b'=' id
    → section_of (assignment "PrivateKey" key) ≡ o
    → tc.writes ≡ true ∷ ws
    → tc.received ≡ Base.◌++◌ (reply (new_onion id key) "OK") rest
    → add_v2_onion conf tc
      ≡ follow
          (λ _ tc'. (answered conf (onion_section (id, "") o).0, tc'))
          (save_key (onion_section (id, "") o).1 (added conf tc ws rest))
unfolding add_v2_onion
add_v2_onion-found conf tc ws rest id key {o} h k no_eq e w r =
    rw
      (
        asks conf tc ws w,
        onion_reply id key h k (added conf tc ws tc.received) rest r,
        found_onion id key h k no_eq e,
      )
      refl

-- Where the command is written, Tor answers with the name and the key of a new service, texts
-- without white space and without `=`, the key not empty, and the file can be written: the result
-- is the address of the service, the file holds the key, and nothing but the command is written to
-- Tor.
pub add_v2_onion-saves :
    (conf : AddOnionConfig) (tc : TorControl) (ws : List Bool) (rest : List Read) (id key : String)
    → IsSolid id
    → IsSolid key
    → Lacks b'=' id
    → Lacks b'=' key
    → key ≢ ""
    → tc.writes ≡ true ∷ ws
    → tc.received ≡ Base.◌++◌ (reply (new_onion id key) "OK") rest
    → tc.key_create ≡ true
    → tc.key_write ≡ true
    → add_v2_onion conf tc
      ≡ (answered conf id, record (added conf tc ws rest) { key_file = some key })
add_v2_onion-saves conf tc ws rest id key h k no_eq no_eq' some_key w r c c' =
    add_v2_onion-found conf tc ws rest id key h k no_eq
      (section_of-assignment "PrivateKey" key plain_key no_eq') w r
    ∙ ap (follow (λ _ tc'. (answered conf id, tc')))
        (saved key (added conf tc ws rest) some_key c c')

-- Where the command is written and Tor answers so, but with a key that has a `=`, as the padding of
-- base 64 has, the result is the address all the same, and the file stays as it was.
pub add_v2_onion-loses :
    (conf : AddOnionConfig) (tc : TorControl) (ws : List Bool) (rest : List Read)
    (id key behind : String)
    → IsSolid id
    → IsSolid (key ++ String.◌∷◌ "=" behind)
    → Lacks b'=' id
    → Lacks b'=' key
    → tc.writes ≡ true ∷ ws
    → tc.received ≡ Base.◌++◌ (reply (new_onion id (key ++ String.◌∷◌ "=" behind)) "OK") rest
    → add_v2_onion conf tc ≡ (answered conf id, added conf tc ws rest)
unfolding save_key
add_v2_onion-loses conf tc ws rest id key behind h k no_eq no_eq' w r =
    add_v2_onion-found conf tc ws rest id (key ++ String.◌∷◌ "=" behind) h k no_eq
      (section_of-padded "PrivateKey" key behind plain_key no_eq') w r

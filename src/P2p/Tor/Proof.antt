-- ===== src/P2p/Tor/Proof.antt =====
-- Whom `authenticate` of src/p2p/tor.rs sends its proof.
use Prim.Native.String.{◌++◌}
use risq.Base.{
  ℕ, String, ◌≡◌, ◌≢◌, ◌∙◌, ap, sym, subst, refl, ◌⊎◌, inl, inr, Bool, true, false, Bool-cases,
  Option, none, some, List, [], ◌∷◌, length, ◌==◌, nat_eq, beq→eq, list_beq, list_beq_iff, arith,
}
use mathlib.Core.List.{append_assoc}
use risq.Base as Base
use risq.P2p.Tor.Line.{Outcome, done, failed, or_panic}
use risq.P2p.Tor.{TorControl, send_command, read_lines, lines_from, foldl, section_of, sections}
use risq.P2p.Tor.Auth.{
  TorCrypto, server_key, controller_key, protocol_info, challenge_section, cookie_of,
  get_auth_cookie, prove, answer_challenge, authenticate,
}
use risq.P2p.Tor.Sends.{
  IsFailure, protocol_line, IsAsked, follow-elim, send_command-IsSent, read_lines-sent,
  protocol_info-IsAsked, went, reading,
}

module _ (c : TorCrypto) where
  get_auth_cookie-IsAsked : (tc : TorControl) → IsAsked tc (get_auth_cookie c tc)
  unfolding get_auth_cookie
  get_auth_cookie-IsAsked tc =
      follow-elim _ (protocol_info tc) (IsAsked tc)
        (λ info e. inr (went e (protocol_info-IsAsked tc)))
        (λ bad o failure. elim (protocol_info-IsAsked tc) [
          | inl (_, same) ↦ inl (failure, same)
          | inr more ↦ inr more
        ])

  cookie_of-length :
      (file : Option (List ℕ)) {cookie : List ℕ}
      → cookie_of c file ≡ done cookie
      → length cookie ≡ 32
  cookie_of-length none e = cc
  cookie_of-length (some content) {cookie} e = elim (Bool-cases (length content == 32)) [
    | inl full ↦
        let same : done content ≡ done cookie = rw full at e in
        let eq : content ≡ cookie = cc in ap length (sym eq) ∙ beq→eq (length content) 32 full
    | inr other ↦ let no : failed _ ≡ done cookie = rw other at e in cc
  ]

  get_auth_cookie-length :
      (tc : TorControl) {cookie : List ℕ}
      → (get_auth_cookie c tc).0 ≡ done cookie
      → length cookie ≡ 32
  unfolding get_auth_cookie
  get_auth_cookie-length tc {cookie} =
      follow-elim _ (protocol_info tc) (λ r. r.0 ≡ done cookie → length cookie ≡ 32)
        (λ info _ e. cookie_of-length (c.read_file info.cookiefile) e)
        (λ bad o failure e. absurd (subst IsFailure e failure))

  module _ (client_nonce : List ℕ) where
    abbrev challenge_line : String
    challenge_line = ("AUTHCHALLENGE SAFECOOKIE " ++ c.to_hex client_nonce) ++ "\r\n"

    abbrev signed : List ℕ → List ℕ → List ℕ
    signed cookie server_nonce = Base.◌++◌ cookie (Base.◌++◌ client_nonce server_nonce)

    abbrev proof_line : List ℕ → List ℕ → String
    proof_line cookie server_nonce =
        ("AUTHENTICATE "
          ++ c.hash_to_string (c.hmac_sha256 controller_key (signed cookie server_nonce)))
        ++ "\r\n"

    abbrev challenge_of : List String → String × String
    challenge_of response =
        foldl (λ found section. challenge_section found (section_of section)) ("", "")
          (sections response)

    -- At most the question and the challenge are written, and it is no success.
    abbrev IsUnproven : TorControl → Outcome (Unit {0}) × TorControl → Type 0
    IsUnproven tc (o, tc') =
        IsFailure o
        × ((tc'.sent ≡ tc.sent)
            ⊎ ((tc'.sent ≡ Base.◌++◌ tc.sent (protocol_line ∷ []))
                ⊎ (tc'.sent ≡ Base.◌++◌ tc.sent (protocol_line ∷ challenge_line ∷ []))))

    -- The proof is written, and the server has sent the hash that the cookie gives.
    abbrev pub IsProven : TorControl → Outcome (Unit {0}) × TorControl → Type 0
    IsProven tc (o, tc') =
        (cookie : List ℕ) × (server_nonce : List ℕ) × (response : List String) × ((get_auth_cookie c
            tc).0
          ≡ done cookie)
        × (length cookie ≡ 32)
        × ((lines_from (get_auth_cookie c tc).1.received).0 ≡ done response)
        × (c.hash_from_str (challenge_of response).0
            ≡ some (c.hmac_sha256 server_key (signed cookie server_nonce)))
        × (c.from_hex (challenge_of response).1 ≡ some server_nonce)
        × (tc'.sent
            ≡ Base.◌++◌ tc.sent
                (protocol_line ∷ challenge_line ∷ proof_line cookie server_nonce ∷ []))

    abbrev pub IsGuarded : TorControl → Outcome (Unit {0}) × TorControl → Type 0
    IsGuarded tc r = IsUnproven tc r ⊎ IsProven tc r

    abbrev hash_check : List ℕ → List ℕ → Bool
    hash_check message hash = list_beq (c.hmac_sha256 server_key message) hash

    prove-checks :
        (message hash : List ℕ) (tc : TorControl)
        → (IsFailure (prove c message hash tc).0 × ((prove c message hash tc).1.sent ≡ tc.sent))
          ⊎ ((c.hmac_sha256 server_key message ≡ hash)
              × ((prove c message hash tc).1.sent
                  ≡ Base.◌++◌ tc.sent (
                      (("AUTHENTICATE " ++ c.hash_to_string (c.hmac_sha256 controller_key message))
                        ++ "\r\n")
                      ∷ [])))
    prove-checks message hash tc = elim (Bool-cases (hash_check message hash)) [
      | inl fits ↦
          elim (send_command-IsSent
            ("AUTHENTICATE " ++ c.hash_to_string (c.hmac_sha256 controller_key message)) tc).1 [
              | inl bad ↦ rw fits (inl bad)
              | inr more ↦
                  rw fits
                    (inr ((list_beq_iff (c.hmac_sha256 server_key message) hash).0 fits, more))
            ]
      | inr other ↦ rw other (inl (tt, refl))
    ]

    -- What is written last, behind the question and the challenge.
    more_sent :
        (tc : TorControl) (texts : List String) (text : String) {before after : List String}
        → after ≡ Base.◌++◌ before (text ∷ [])
        → before ≡ Base.◌++◌ tc.sent texts
        → after ≡ Base.◌++◌ tc.sent (Base.◌++◌ texts (text ∷ []))
    more_sent tc texts text e h =
        e ∙ ap (λ l. Base.◌++◌ l (text ∷ [])) h ∙ append_assoc tc.sent texts (text ∷ [])

    or_panic-done : {A : Type 0} (o : Option A) {a : A} → or_panic o ≡ done a → o ≡ some a
    or_panic-done none e = cc
    or_panic-done (some b) e = cc

    abbrev IsAnswered : List ℕ → List String → TorControl → Outcome (Unit {0}) × TorControl → Type 0
    IsAnswered cookie response tc (o, tc') =
        (IsFailure o × (tc'.sent ≡ tc.sent))
        ⊎ ((server_nonce : List ℕ) × (c.hash_from_str (challenge_of response).0
              ≡ some (c.hmac_sha256 server_key (signed cookie server_nonce)))
            × (c.from_hex (challenge_of response).1 ≡ some server_nonce)
            × (tc'.sent ≡ Base.◌++◌ tc.sent (proof_line cookie server_nonce ∷ [])))

    answer_challenge-IsAnswered :
        (cookie : List ℕ) (response : List String) (tc : TorControl)
        → IsAnswered cookie response tc (answer_challenge c cookie client_nonce response tc)
    unfolding answer_challenge read_lines
    answer_challenge-IsAnswered cookie response tc =
        let Q = IsAnswered cookie response tc in
        follow-elim _ _ Q
          (λ hash e.
            follow-elim _ _ Q
              (λ nonce e'.
                let r = prove c (signed cookie nonce) hash tc in
                let checks = prove-checks (signed cookie nonce) hash tc in
                let proven = λ (fits : c.hmac_sha256 server_key (signed cookie nonce) ≡ hash).
                  or_panic-done _ e ∙ ap some (sym fits) in
                follow-elim _ r Q
                  (λ _ e6.
                    let (fits, more) = went e6 checks in
                    follow-elim _ (read_lines r.1) Q
                      (λ _ _. inr (nonce, proven fits, or_panic-done _ e', more))
                      (λ _ o bad. inr (nonce, proven fits, or_panic-done _ e', more)))
                  (λ _ o bad. elim checks [
                    | inl (_, same) ↦ inl (bad, same)
                    | inr (fits, more) ↦ inr (nonce, proven fits, or_panic-done _ e', more)
                  ]))
              (λ _ o bad. inl (bad, refl)))
          (λ _ o bad. inl (bad, refl))

    -- Whatever the server sends, the proof is written only where the cookie has 32 bytes and the
    -- server has answered the challenge with the hash that the cookie and the nonces give; and then
    -- the question, the challenge and the proof are all that is written. Else it is no success, and
    -- at most the question and the challenge are written.
    pub authenticate-IsGuarded : (tc : TorControl) → IsGuarded tc (authenticate c client_nonce tc)
    unfolding authenticate
    authenticate-IsGuarded tc =
        let r1 = get_auth_cookie c tc in
        let asked = get_auth_cookie-IsAsked tc in
        let Q = IsGuarded tc in
        follow-elim _ r1 Q
          (λ cookie e1.
            let one = went e1 asked in
            let r2 = send_command ("AUTHCHALLENGE SAFECOOKIE " ++ c.to_hex client_nonce) r1.1 in
            let (kept, challenged) =
              send_command-IsSent ("AUTHCHALLENGE SAFECOOKIE " ++ c.to_hex client_nonce) r1.1 in
            let second = λ (more : r2.1.sent ≡ Base.◌++◌ r1.1.sent (challenge_line ∷ [])).
              more_sent tc (protocol_line ∷ []) challenge_line more one in
            follow-elim _ r2 Q
              (λ _ e2.
                let r3 = read_lines r2.1 in
                let three = read_lines-sent r2.1 ∙ second (went e2 challenged) in
                follow-elim _ r3 Q
                  (λ response e3. elim (answer_challenge-IsAnswered cookie response r3.1) [
                    | inl (bad, same) ↦ inl (bad, inr (inr (same ∙ three)))
                    | inr (nonce, hash, decoded, more) ↦ inr (
                      cookie,
                      nonce,
                      response,
                      e1,
                      get_auth_cookie-length tc e1,
                      reading r1.1 r2.1 kept e3,
                      hash,
                      decoded,
                      more_sent tc (protocol_line ∷ challenge_line ∷ []) (proof_line cookie nonce)
                          more three,
                    )
                  ])
                  (λ _ o bad. inl (bad, inr (inr three))))
              (λ _ o bad. elim challenged [
                | inl (_, same) ↦ inl (bad, inr (inl (same ∙ one)))
                | inr more ↦ inl (bad, inr (inr (second more)))
              ]))
          (λ _ o bad. elim asked [
            | inl (_, same) ↦ inl (bad, inl same)
            | inr more ↦ inl (bad, inr (inl more))
          ])
